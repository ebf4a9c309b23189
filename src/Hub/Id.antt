-- ===== src/Hub/Id.antt =====
-- The id that `join` of handlers.cpp gives to a client without one, by `randNum` and `n2hex` of util.cpp.
use kedge.Base.{ℕ, ◌≤◌, ◌≡◌, refl, [], ◌∷◌, arith, length, All}
use kedge.Bytes.{Bytes}
use kedge.Json.{Json}
use kedge.Number.{hex_digits_value}
use kedge.Util.Hex.{n2hex, n2hex-IsHex, IsHex}
use kedge.Hub.{HubState, send, welcome, join}

-- `uniform` draws a number between two others.
unfoldable pub rand_num : (ℕ → ℕ → ℕ) → ℕ → ℕ → ℕ
rand_num uniform min max = uniform min max

unfoldable pub random_id : (ℕ → ℕ → ℕ) → Bytes
unfolding rand_num n2hex
random_id uniform = n2hex (rand_num uniform 1000 9999)

-- If the drawn number lies from 1000 to 9999, a client that joins without an id is sent the
-- version, the current statistics and an id of eight lower case hex digits, which read in base 16
-- is a number from 1000 to 9999.
pub join-random_id :
    (serialize : Json → Bytes) (uniform : ℕ → ℕ → ℕ) (wss : ℕ) (stats : Json) (h : HubState)
    → 1000 ≤ uniform 1000 9999
    → uniform 1000 9999 ≤ 9999
    → let (h', calls) = join serialize wss [] (random_id uniform) stats h in
      let id = random_id uniform in
      (calls ≡ send wss (serialize (welcome h'.sync_ver id h'.curr_stats)) ∷ [])
      × (length id ≡ 8)
      × All IsHex id
      × (1000 ≤ hex_digits_value 0 id)
      × (hex_digits_value 0 id ≤ 9999)
unfolding join random_id rand_num
join-random_id serialize uniform wss stats h least most =
    let (eight, digits, value) = n2hex-IsHex (uniform 1000 9999) (omega (arith, most)) in
    (refl, eight, digits, omega (arith, value, least), omega (arith, value, most))
