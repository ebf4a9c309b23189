-- ===== src/Handlers/Torrent.antt =====
-- Requests for one torrent: /api/torrent/{infohash}/{act}, and requests that are routed there or to
-- /torrents from elsewhere.
use kedge.Base.{
  suc, ◌+◌, ◌≡◌, ◌≢◌, ◌≤◌, refl, ap, ◌∙◌, true, false, [], ◌∷◌, ◌++◌, arith, ltb, length, drop, All,
  All-append, all, length-append,
}
use kedge.Bytes.{Bytes, codes, find, bytes_eq, starts_with}
use kedge.Bytes.Laws.{find_byte_none, drop-suc-length, substr_from_fits}
use kedge.Fault.{done}
use kedge.Util.{HashText, IsHexText, is_hex_digit}
use kedge.Util.ResumeName.{from_hex-write, take-forty}
use kedge.HttpUtil.{Request, Verb, get}
use kedge.Json.{Json}
use kedge.Handlers.Shape.{handle_torrent_long, sb_call_inside}
use kedge.Handlers.{
  SheathOps, strip_query, act_of, torrent_by, handle_torrent, torrent, route_of, run_route, answer,
  sb_call,
}

-- A text without "?".
abbrev pub NoQuery : Bytes → Type 0
NoQuery = All (λ c. c ≢ b'?')

strip_query_plain : (s : Bytes) → NoQuery s → strip_query s ≡ done s
unfolding strip_query
strip_query_plain s h = rw (find_byte_none b'?' s h, strip_query) refl

NoQuery-hex : (s : Bytes) → all is_hex_digit s ≡ true → NoQuery s
unfolding is_hex_digit
NoQuery-hex [] h = tt
NoQuery-hex (c ∷ s) h = (λ e. ground arith, NoQuery-hex s (ground arith))

-- The path of a torrent over a hash in hex.
abbrev path_of : Bytes → Bytes → Bytes
path_of hex act = codes "/api/torrent/" ++ (hex ++ b'/' ∷ act)

length-path_of : (hex act : Bytes) → length hex ≡ 40 → length (path_of hex act) ≡ 54 + length act
length-path_of hex act e = omega (arith, length-append {0} hex (b'/' ∷ act))

drop-path_of : (hex act : Bytes) → length hex ≡ 40 → drop 54 (path_of hex act) ≡ act
drop-path_of hex act e =
    let step : drop (suc (length hex)) (hex ++ b'/' ∷ act) ≡ act = drop-suc-length hex b'/' act in
    rw e at step

act_of-path_of : (hex act : Bytes) → length hex ≡ 40 → act_of 53 (path_of hex act) ≡ done act
unfolding act_of
act_of-path_of hex [] e =
    let size : ltb 54 (length (path_of hex [])) ≡ false = ground (arith, length-path_of hex [] e) in
    rw size refl
act_of-path_of hex (c ∷ act) e =
    let size : ltb 54 (length (path_of hex (c ∷ act))) ≡ true =
      ground (arith, length-path_of hex (c ∷ act) e) in
    let fits : 54 ≤ length (path_of hex (c ∷ act)) =
      omega (arith, length-path_of hex (c ∷ act) e) in
    rw (size, substr_from_fits 54 (path_of hex (c ∷ act)) fits, drop-path_of hex (c ∷ act) e) refl

module _ (t : HashText) (laws : IsHexText t) (h : t.Hash) (act : Bytes) (clean : NoQuery act) where
  -- The hash in hex, a slash and the action.
  abbrev tail_text : Bytes
  tail_text = t.write h ++ b'/' ∷ act

  -- The target /api/torrent/{hash}/{act}.
  abbrev pub torrent_target : Bytes
  torrent_target = codes "/api/torrent/" ++ tail_text

  tail_text-NoQuery : NoQuery tail_text
  tail_text-NoQuery =
      All-append (λ c. c ≢ b'?') (t.write h) _ (NoQuery-hex (t.write h) (laws.write_digits h))
        (omega arith, clean)

  target-NoQuery : NoQuery torrent_target
  target-NoQuery =
      All-append (λ c. c ≢ b'?') (codes "/api/torrent/") tail_text (omega arith) tail_text-NoQuery

  uri-NoQuery : NoQuery (codes "/torrent/" ++ tail_text)
  uri-NoQuery =
      All-append (λ c. c ≢ b'?') (codes "/torrent/") tail_text (omega arith) tail_text-NoQuery

  route_of-target : (v : Verb) → route_of v (codes "/torrent/" ++ tail_text) ≡ torrent
  unfolding route_of bytes_eq find starts_with
  route_of-target get = refl
  route_of-target v = refl

  module _ {S : Type 0} (ops : SheathOps t.Hash S) (serialize : Json → Bytes) where
    handle_torrent-target :
        (req : Request) (s : S)
        → req.target ≡ torrent_target
        → handle_torrent t ops serialize req 13 s
          ≡ torrent_by t ops serialize req.method req h (done act) s
    handle_torrent-target req s e =
        let size = laws.write_length h in
        let long : ltb (length torrent_target) 53 ≡ false =
          ground (arith, length-path_of (t.write h) act size) in
        handle_torrent_long t ops serialize req 13 torrent_target s
          (rw e (strip_query_plain torrent_target target-NoQuery)) long
        ∙ rw
            (
              act_of-path_of (t.write h) act size,
              take-forty (t.write h) (b'/' ∷ act) size,
              from_hex-write t laws h,
            )
            refl

    -- The request reaches the part of `handleTorrent` behind the parsing, with this hash and action.
    pub sb_call-target :
        (req : Request) (s : S)
        → req.target ≡ torrent_target
        → sb_call t ops serialize req s
          ≡ answer t ops serialize (torrent_by t ops serialize req.method req h (done act) s)
    unfolding find starts_with run_route
    sb_call-target req s e =
        sb_call_inside t ops serialize req (codes "/torrent/" ++ tail_text) s 0 (rw e refl)
          (rw e (strip_query_plain (codes "/torrent/" ++ tail_text) uri-NoQuery))
        ∙ rw (route_of-target req.method)
            (ap (answer t ops serialize) (handle_torrent-target req s e))
