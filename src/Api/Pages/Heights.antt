-- ===== src/Api/Pages/Heights.antt =====
-- The heights that the pages of `GetBlocks` (api/rest/handler.go) ask for, one page after the other.
use native.Mathlib.Nat.{div-add-mod, mod-lt}
use abcfe.Base.{
  ℕ, zero, suc, ◌+◌, ◌-◌, ◌*◌, ◌%◌, ◌<◌, ◌≤◌, List, [], ◌∷◌, ◌++◌, Option, none, some, Bool, true,
  false, ◌≡◌, refl, sym, ap, ◌∙◌, arith, leb, leb→le, leb→lt, u64_mod, inl, inr, Bool-cases,
}
use abcfe.Base.Int.{ℤ, pos, negsuc, sub_ℕ}
use abcfe.Core.Store.Text.{int_of}
use abcfe.Api.Pages.{
  limit_of, offset_of, heights_down, heights_up, start_of, page_heights, total_pages,
}

-- So many numbers down to 0, and so many up from a number.
abbrev pub down : ℕ → List ℕ
down zero = []
down (suc n) = n ∷ down n

abbrev pub up : ℕ → ℕ → List ℕ
up zero from = []
up (suc n) from = from ∷ up n (suc from)

-- So many pages from one on.
unfoldable pub pages : Bool → ℕ → ℕ → ℕ → ℕ → List ℕ
pages desc latest limit page zero = []
pages desc latest limit page (suc n) =
    page_heights desc latest page limit ++ pages desc latest limit (suc page) n

pub limit_pos : (p : Option ℤ) → 0 < limit_of p
unfolding limit_of
limit_pos none = omega arith
limit_pos (some (negsuc n)) = omega arith
limit_pos (some (pos n)) = ground arith

pub limit_le : (p : Option ℤ) → limit_of p ≤ 100
unfolding limit_of
limit_le none = omega arith
limit_le (some (negsuc n)) = omega arith
limit_le (some (pos n)) = ground arith

heights_down-down : (limit r : ℕ) → heights_down limit (sub_ℕ r 1) ++ down (r - limit) ≡ down r
unfolding heights_down
heights_down-down zero r = ap down (omega arith)
heights_down-down (suc limit) zero = let e : 0 - suc limit ≡ 0 = omega arith in ap down e
heights_down-down (suc limit) (suc zero) =
    let e : 1 - suc limit ≡ 0 = omega arith in ap (λ n. 0 ∷ down n) e
heights_down-down (suc limit) (suc (suc h)) =
    let e : suc (suc h) - suc limit ≡ suc h - limit = omega arith in
    let top : sub_ℕ (suc (suc h)) 1 ≡ pos (suc h) = ground arith in
    let top' : pos h ≡ sub_ℕ (suc h) 1 = ground arith in
    ap (λ x. heights_down (suc limit) x ++ down (suc (suc h) - suc limit)) top
    ∙ ap (λ n. suc h ∷ (heights_down limit (pos h) ++ down n)) e
    ∙ ap (λ ns. suc h ∷ ns)
        (ap (λ x. heights_down limit x ++ down (suc h - limit)) top'
          ∙ heights_down-down limit (suc h))

heights_up-up :
    (limit latest from : ℕ)
    → heights_up limit latest (pos from) ++ up (latest + 1 - (from + limit)) (from + limit)
      ≡ up (latest + 1 - from) from
unfolding heights_up
heights_up-up zero latest from =
    let e : from + 0 ≡ from = omega arith in ap (λ n. up (latest + 1 - n) n) e
heights_up-up (suc limit) latest from = elim (Bool-cases (leb from latest)) [
  | inl t ↦
      let rest = heights_up-up limit latest (suc from) in
      let e : from + suc limit ≡ suc from + limit = omega arith in
      let e' : suc (latest + 1 - suc from) ≡ latest + 1 - from =
        omega (arith, leb→le from latest t) in
      rw t (
        ap (λ n. from ∷ (heights_up limit latest (pos (suc from)) ++ up (latest + 1 - n) n)) e
        ∙ ap (λ ns. from ∷ ns) rest
        ∙ ap (λ n. up n from) e')
  | inr f ↦
      let e : latest + 1 - (from + suc limit) ≡ 0 = omega (arith, leb→lt from latest f) in
      let e' : latest + 1 - from ≡ 0 = omega (arith, leb→lt from latest f) in
      rw f (ap (λ n. up n (from + suc limit)) e ∙ sym (ap (λ n. up n from) e'))
]

heights_down-negsuc : (limit n : ℕ) → heights_down limit (negsuc n) ≡ []
unfolding heights_down
heights_down-negsuc zero n = refl
heights_down-negsuc (suc limit) n = refl

-- A page that starts below the first block is empty, wherever it starts.
heights_down-start :
    (limit latest o : ℕ)
    → heights_down limit (sub_ℕ latest o) ≡ heights_down limit (sub_ℕ (latest + 1 - o) 1)
heights_down-start limit latest o = elim (Bool-cases (leb o latest)) [
  | inl t ↦ ap (heights_down limit) (ground (arith, t))
  | inr f ↦
      ap (heights_down limit) (below f)
      ∙ heights_down-negsuc limit (o - latest - 1)
      ∙ sym (heights_down-negsuc limit 0)
      ∙ ap (heights_down limit) (ground (arith, f))
]
  where
    below : leb o latest ≡ false → sub_ℕ latest o ≡ negsuc (o - latest - 1)
    below f = rw f refl

offset_of-small :
    (limit k : ℕ) → k * limit < 9223372036854775808 → offset_of (suc k) limit ≡ pos (k * limit)
unfolding offset_of
offset_of-small limit k small =
    ap (λ n. int_of (n * limit % u64_mod)) (pred k) ∙ ground (arith, small)
  where
    pred : (k : ℕ) → suc k - 1 ≡ k
    pred k = omega arith

pub pages-down :
    (latest limit k n : ℕ)
    → latest + 1 ≤ k * limit + n * limit
    → (k + n) * limit < 9223372036854775808
    → pages true latest limit (suc k) n ≡ down (latest + 1 - k * limit)
unfolding pages page_heights offset_of
pages-down latest limit k zero h small =
    let e : 0 ≡ latest + 1 - k * limit = omega (arith, h) in ap down e
pages-down latest limit k (suc n) h small =
    let o = k * limit in
    let e : latest + 1 - suc k * limit ≡ latest + 1 - o - limit = omega arith in
    let rest = pages-down latest limit (suc k) n (omega (arith, h)) (omega (arith, small)) in
    ap (λ x. heights_down limit (start_of latest x) ++ pages true latest limit (suc (suc k)) n)
      (offset_of-small limit k (omega (arith, small)))
    ∙ ap (λ ns. heights_down limit (sub_ℕ latest o) ++ ns) rest
    ∙ ap (λ ns. ns ++ down (latest + 1 - suc k * limit)) (heights_down-start limit latest o)
    ∙ ap (λ m. heights_down limit (sub_ℕ (latest + 1 - o) 1) ++ down m) e
    ∙ heights_down-down limit (latest + 1 - o)

pub pages-up :
    (latest limit k n : ℕ)
    → latest + 1 ≤ k * limit + n * limit
    → (k + n) * limit < 9223372036854775808
    → pages false latest limit (suc k) n ≡ up (latest + 1 - k * limit) (k * limit)
unfolding pages page_heights
pages-up latest limit k zero h small =
    let e : 0 ≡ latest + 1 - k * limit = omega (arith, h) in ap (λ n. up n (k * limit)) e
pages-up latest limit k (suc n) h small =
    let o = k * limit in
    let e : suc k * limit ≡ o + limit = omega arith in
    let rest = pages-up latest limit (suc k) n (omega (arith, h)) (omega (arith, small)) in
    ap (λ x. heights_up limit latest x ++ pages false latest limit (suc (suc k)) n)
      (offset_of-small limit k (omega (arith, small)))
    ∙ ap (λ ns. heights_up limit latest (pos o) ++ ns) rest
    ∙ ap (λ m. heights_up limit latest (pos o) ++ up (latest + 1 - m) m) e
    ∙ heights_up-up limit latest o

-- The pages are enough, and their offsets are small.
pub total_pages-enough :
    (latest limit : ℕ)
    → 0 < limit
    → (latest + 1 ≤ total_pages latest limit * limit)
      × (total_pages latest limit * limit ≤ latest + limit)
unfolding total_pages
total_pages-enough latest limit h =
    let x = latest + 1 + limit - 1 in
    (
      omega (arith, h, div-add-mod x limit, mod-lt x h),
      omega (arith, h, div-add-mod x limit, mod-lt x h),
    )
