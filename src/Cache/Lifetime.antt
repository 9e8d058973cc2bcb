-- ===== src/Cache/Lifetime.antt =====
-- `QueryCache` of cache.py: what a later read returns.
use insightkit.Prelude.{
  ℕ, ◌+◌, ◌*◌, ◌≡◌, Option, none, some, Text, text_eq, ltb, if◌then◌else◌, Bool-cases, inl, inr,
}
use insightkit.Prelude.Dict.{get-put}
use insightkit.Cache.Store.{CacheTable, read_row, get, store, set}

module _ {ℓ} {Payload : Type ℓ} (encode : Payload → Option Text)
    (decode : Text → Option Payload) where
  -- After a `set` at time `now`, a `get` of the same key at any time `later` returns the decoded
  -- payload while `later` is at most `ttl_s` seconds after `now`, and nothing after that; a `get`
  -- of another key returns what it returned before.
  pub get-set :
      (ttl_s now later : ℕ) (key other : Text) (payload : Payload) (encoded : Text)
      (rows : CacheTable)
      → encode payload ≡ some encoded
      → get encode decode later other (set encode decode ttl_s now key payload rows) ≡ (
          if text_eq key other
          then (if ltb (now + ttl_s * 1_000_000) later then none else decode encoded)
          else get encode decode later other rows)
  unfolding get set store read_row
  get-set ttl_s now later key other payload encoded rows e =
      rw (e, store, get-put)
        (elim (Bool-cases (text_eq key other)) [ inl same ↦ rw same | inr differs ↦ rw differs ])
