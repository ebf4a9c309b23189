-- ===== src/Witness/Parts.antt =====
-- Names, ports and queries.
use kedge.Base.{ℕ, ◌≡◌, refl, Bool, true, ◌&&◌, some, arith, take, ltb}
use kedge.Bytes.{codes, find, starts_with}
use kedge.Util.{is_resume_file, resume_name, from_hex, parse_endpoint}
use kedge.Util.ResumeName.{resume_name-from_hex}
use kedge.Util.Port.{with_port, parse_endpoint-with_port}
use kedge.HttpUtil.{query_arg_one, url_decode}
use kedge.HttpUtil.Decode.{url_encode, url_decode-url_encode}
use kedge.HttpUtil.Query.{query_arg_one_more}
use kedge.Witness.Samples.{zeros, sha_text, sha_text-IsHexText, lacks, above_zero, are_bytes}

resume_name_example :
    (is_resume_file (resume_name sha_text zeros) ≡ true)
    × (from_hex sha_text (take 40 (resume_name sha_text zeros)) ≡ some zeros)
resume_name_example = resume_name-from_hex sha_text sha_text-IsHexText zeros

parse_endpoint_example :
    parse_endpoint {A = ℕ}
      (λ ip. some 5)
      (with_port (codes "::1") (above_zero (codes "::1") refl) 70000)
    ≡ some (record { address = 5; port = 4464 })
parse_endpoint_example =
    parse_endpoint-with_port {A = ℕ} (λ ip. some 5) (codes "::1") (above_zero (codes "::1") refl)
      70000 5 refl (omega arith) (omega arith)

-- Letters and digits are left alone.
abbrev unreserved : ℕ → Bool
unreserved c = ltb 96 c && ltb c 123

url_decode_example : url_decode (url_encode unreserved (codes "a b+%c")) ≡ codes "a b+%c"
url_decode_example =
    url_decode-url_encode unreserved refl refl (codes "a b+%c") (are_bytes (codes "a b+%c") refl)

last_index : find (codes "id=") (codes "/ws?x=1&id=ab") ≡ some 8
unfolding find starts_with
last_index = refl

more_index : find (codes "id=") (codes "/ws?id=ab&x=1") ≡ some 4
unfolding find starts_with
more_index = refl

query_arg_one_more_example :
    query_arg_one (codes "/ws?id=ab&x=1") (codes "id=") ≡ some (codes "ab&x=1")
query_arg_one_more_example =
    query_arg_one_more (codes "/ws?") (codes "id=") (codes "ab") (lacks b'&' (codes "id=ab") refl)
      (codes "x=1") more_index
