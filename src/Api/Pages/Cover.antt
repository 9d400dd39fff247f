-- ===== src/Api/Pages/Cover.antt =====
-- The pages of `GetBlocks` (api/rest/handler.go) one after the other.
use abcfe.Base.{
  ℕ, zero, suc, ◌+◌, ◌-◌, ◌*◌, ◌<◌, ◌≤◌, List, [], ◌∷◌, ◌++◌, Option, some, Bool, true, false, ◌≡◌,
  refl, sym, ap, ◌∙◌, arith, inl, inr,
}
use abcfe.Base.Int.{ℤ, pos}
use abcfe.Core.Types.{Config}
use abcfe.Core.Errors.{ok, err, Result-cases}
use abcfe.Core.Crypto.{Crypto}
use abcfe.Core.Store.{LevelDb}
use abcfe.Core.Chain.{Chain, get_latest_height}
use abcfe.Core.Validate.{get_block_by_height}
use abcfe.Api.Response.{Response}
use abcfe.Api.Format.{BlockResp}
use abcfe.Api.Pages.{BlockPage, page_of, blocks_at, get_blocks, limit_of, page_heights, total_pages}
use abcfe.Api.Pages.Heights.{
  down, up, pages, limit_pos, limit_le, pages-down, pages-up, total_pages-enough,
}

abbrev pub shown : Response BlockPage → List BlockResp
shown r = elim r.body [ err _ ↦ [] | ok p ↦ p.blocks ]

page_of-pos : (k : ℕ) → page_of (some (pos (suc k))) ≡ suc k
unfolding page_of
page_of-pos k = ground arith

module _ (cfg : Config) (c : Crypto) (ldb : LevelDb) where
  open ldb use {Db}

  blocks_at-nil : (db : Db) → blocks_at cfg c ldb db [] ≡ []
  unfolding blocks_at
  blocks_at-nil db = refl

  blocks_at-append :
      (db : Db) (hs ks : List ℕ)
      → blocks_at cfg c ldb db (hs ++ ks) ≡ blocks_at cfg c ldb db hs ++ blocks_at cfg c ldb db ks
  unfolding blocks_at
  blocks_at-append db [] ks = refl
  blocks_at-append db (h ∷ hs) ks = elim (Result-cases (get_block_by_height cfg c ldb db h)) [
    | inl (b, e) ↦ ground (arith, e, blocks_at-append db hs ks)
    | inr (x, e) ↦ ground (arith, e, blocks_at-append db hs ks)
  ]

  -- The blocks of so many pages, from the page after `k` on.
  pub blocks_of_pages : Chain Db → Option ℤ → Bool → ℕ → ℕ → List BlockResp
  blocks_of_pages ch limit desc k zero = []
  blocks_of_pages ch limit desc k (suc n) =
      shown (get_blocks cfg c ldb ch (some (pos (suc k))) limit desc)
      ++ blocks_of_pages ch limit desc (suc k) n

  blocks_of_pages-pages :
      (ch : Chain Db) (limit : Option ℤ) (desc : Bool) (k n : ℕ)
      → blocks_of_pages ch limit desc k n
        ≡ blocks_at cfg c ldb ch.db (pages desc ch.latest_height (limit_of limit) (suc k) n)
  unfolding blocks_of_pages pages get_blocks get_latest_height
  blocks_of_pages-pages ch limit desc k zero = sym (blocks_at-nil ch.db)
  blocks_of_pages-pages ch limit desc k (suc n) =
      ap
        (λ m.
          blocks_at cfg c ldb ch.db (page_heights desc ch.latest_height m (limit_of limit))
          ++ blocks_of_pages ch limit desc (suc k) n)
        (page_of-pos k)
      ∙ ap
          (λ bs.
            blocks_at cfg c ldb ch.db (page_heights desc ch.latest_height (suc k) (limit_of limit))
            ++ bs)
          (blocks_of_pages-pages ch limit desc (suc k) n)
      ∙ sym (blocks_at-append ch.db _ _)

  -- The pages from the first to the last that `GetBlocks` counts show the blocks of all heights from
  -- the latest down to 0, each once, and with the other order from 0 up to the latest, whatever the
  -- limit: those that the database has. The latest height is at least 101 below 2^63.
  pub get_blocks-all :
      (ch : Chain Db) (limit : Option ℤ)
      → ch.latest_height + 101 < 9223372036854775808
      → (blocks_of_pages ch limit true 0 (total_pages ch.latest_height (limit_of limit))
          ≡ blocks_at cfg c ldb ch.db (down (ch.latest_height + 1)))
        × (blocks_of_pages ch limit false 0 (total_pages ch.latest_height (limit_of limit))
            ≡ blocks_at cfg c ldb ch.db (up (ch.latest_height + 1) 0))
  get_blocks-all ch limit small =
      let n = total_pages ch.latest_height (limit_of limit) in
      let (enough, few) = total_pages-enough ch.latest_height (limit_of limit) (limit_pos limit) in
      let reach : ch.latest_height + 1 ≤ 0 * limit_of limit + n * limit_of limit =
        omega (arith, enough) in
      let fits : (0 + n) * limit_of limit < 9223372036854775808 =
        omega (arith, few, small, limit_le limit) in
      let from_top : ch.latest_height + 1 - 0 * limit_of limit ≡ ch.latest_height + 1 =
        omega arith in
      let nil : 0 * limit_of limit ≡ 0 = omega arith in
      let all : ch.latest_height + 1 - 0 ≡ ch.latest_height + 1 = omega arith in
      (
        blocks_of_pages-pages ch limit true 0 n
            ∙ ap (blocks_at cfg c ldb ch.db)
                (pages-down ch.latest_height (limit_of limit) 0 n reach fits ∙ ap down from_top),
        blocks_of_pages-pages ch limit false 0 n
            ∙ ap (blocks_at cfg c ldb ch.db) (
                pages-up ch.latest_height (limit_of limit) 0 n reach fits
                ∙ ap (λ m. up (ch.latest_height + 1 - m) m) nil
                ∙ ap (λ m. up m 0) all),
      )
