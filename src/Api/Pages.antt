-- ===== src/Api/Pages.antt =====
-- `GetBlocks` of api/rest/handler.go: the blocks page by page. An `int` is a signed number; the
-- product that gives the offset wraps around in 64 bits. The latest height is below 2^63.
pub mod Heights
pub mod Cover
use abcfe.Base.{
  ℕ, zero, suc, ◌+◌, ◌-◌, ◌*◌, ◌/◌, ◌%◌, List, [], ◌∷◌, Option, none, some, Bool, true, false, ◌&&◌,
  ltb, leb, if◌then◌else◌, u64_mod,
}
use abcfe.Base.Int.{ℤ, pos, negsuc, sub_ℕ, ◌+ℤ◌}
use abcfe.Core.Types.{Bytes, Config}
use abcfe.Core.Errors.{ok, err}
use abcfe.Core.Crypto.{Crypto}
use abcfe.Core.Store.{LevelDb}
use abcfe.Core.Store.Text.{int_of}
use abcfe.Core.Chain.{Chain, get_latest_height}
use abcfe.Core.Validate.{get_block_by_height}
use abcfe.Api.Response.{Response, send, Numerals}
use abcfe.Api.Format.{BlockResp, format_block_resp}

-- The query parameters: a page or a limit that does not parse, or is out of range, is the default.
unfoldable pub page_of : Option ℤ → ℕ
page_of none = 1
page_of (some (negsuc n)) = 1
page_of (some (pos n)) = if ltb 0 n then n else 1

unfoldable pub limit_of : Option ℤ → ℕ
limit_of none = 10
limit_of (some (negsuc n)) = 10
limit_of (some (pos n)) = if ltb 0 n && leb n 100 then n else 10

-- `(page - 1) * limit`
unfoldable pub offset_of : ℕ → ℕ → ℤ
offset_of page limit = int_of ((page - 1) * limit % u64_mod)

-- The heights that the loop from the latest block asks for, at most `limit` of them from a start on
-- and none below 0.
unfoldable pub heights_down : ℕ → ℤ → List ℕ
heights_down zero h = []
heights_down (suc limit) (negsuc h) = []
heights_down (suc limit) (pos zero) = 0 ∷ []
heights_down (suc limit) (pos (suc h)) = suc h ∷ heights_down limit (pos h)

-- Those of the loop from the oldest block, up to the latest; a start below 0 is a height near 2^64.
unfoldable pub heights_up : ℕ → ℕ → ℤ → List ℕ
heights_up zero latest h = []
heights_up (suc limit) latest (negsuc h) =
    (u64_mod - 1 - h) ∷ heights_up limit latest (negsuc h +ℤ pos 1)
heights_up (suc limit) latest (pos h) =
    let rest = heights_up limit latest (pos (suc h)) in if leb h latest then h ∷ rest else []

-- `int(latestHeight) - offset`
abbrev pub start_of : ℕ → ℤ → ℤ
start_of latest (pos offset) = sub_ℕ latest offset
start_of latest (negsuc n) = int_of (latest + suc n)

-- The heights of a page.
unfoldable pub page_heights : Bool → ℕ → ℕ → ℕ → List ℕ
page_heights desc latest page limit =
    if desc
    then heights_down limit (start_of latest (offset_of page limit))
    else heights_up limit latest (offset_of page limit)

-- `totalPages`
unfoldable pub total_pages : ℕ → ℕ → ℕ
total_pages latest limit = (latest + 1 + limit - 1) / limit

pub record BlockPage : Type 0 where
  pub blocks : List BlockResp
  pub page : ℕ
  pub limit : ℕ
  pub total : ℕ
  pub total_pages : ℕ

module _ (cfg : Config) (c : Crypto) (ldb : LevelDb) where
  open ldb use {Db}

  -- The blocks at some heights; one that is not found is passed over.
  unfoldable pub blocks_at : Db → List ℕ → List BlockResp
  blocks_at db [] = []
  blocks_at db (h ∷ hs) =
      let rest = blocks_at db hs in
      elim (get_block_by_height cfg c ldb db h) [
        | err _ ↦ rest
        | ok b ↦ format_block_resp cfg c ldb db b ∷ rest
      ]

  -- `GetBlocks`, at the parameters as `strconv.Atoi` reads them, and whether the order is "desc" or
  -- not given
  unfoldable pub get_blocks : Chain Db → Option ℤ → Option ℤ → Bool → Response BlockPage
  get_blocks ch page_param limit_param desc =
      let page = page_of page_param in
      let limit = limit_of limit_param in
      let latest = get_latest_height ldb ch in
      send (record {
        blocks = blocks_at ch.db (page_heights desc latest page limit);
        page = page;
        limit = limit;
        total = latest + 1;
        total_pages = total_pages latest limit;
      })
