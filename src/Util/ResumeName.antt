-- ===== src/Util/ResumeName.antt =====
-- is_resume_file, resume_file and from_hex: the names that the program writes are those it reads.
use kedge.Base.{
  ◌≡◌, refl, ◌↔◌, true, some, [], ◌∷◌, ◌++◌, sym, ap, ◌∙◌, if-eq-true, arith, ◌==◌, ==_iff, length,
  take, drop, all, length-append, length-take, take-append-drop, take-length-append,
  drop-length-append,
}
use kedge.Bytes.{Bytes, bytes_eq, bytes_eq_iff, bytes_eq_self, c_str}
use kedge.Util.{
  resume_ext, is_hex_digit, is_resume_file, HashText, IsHexText, from_hex, resume_name,
}

pub take-forty : (h s : Bytes) → length h ≡ 40 → take 40 (h ++ s) ≡ h
take-forty h s e = rw (← e) (take-length-append h s)

drop-forty : (h s : Bytes) → length h ≡ 40 → drop 40 (h ++ s) ≡ s
drop-forty h s e = rw (← e) (drop-length-append h s)

is_resume_file_of :
    (h : Bytes)
    → length h ≡ 40
    → all is_hex_digit h ≡ true
    → is_resume_file (h ++ resume_ext) ≡ true
is_resume_file_of h e d =
    let size : length (h ++ resume_ext) ≡ 47 = omega (arith, length-append {0} h resume_ext) in
    unfold is_resume_file in
    rw (size, drop-forty h resume_ext e, bytes_eq_self resume_ext, take-forty h resume_ext e) d

is_resume_file_parts :
    (s : Bytes)
    → is_resume_file s ≡ true
    → (length s ≡ 47) × (drop 40 s ≡ resume_ext) × (all is_hex_digit (take 40 s) ≡ true)
unfolding is_resume_file
is_resume_file_parts s h =
    let (size, rest) = if-eq-true (length s == 47) _ h in
    let (ext, digits) = if-eq-true (bytes_eq (drop 40 s) resume_ext) _ rest in
    ((==_iff (length s) 47).0 size, (bytes_eq_iff (drop 40 s) resume_ext).0 ext, digits)

-- is_resume_file accepts exactly the names made of forty lower case hex digits and ".resume".
pub is_resume_file_iff :
    (s : Bytes)
    → (is_resume_file s ≡ true)
      ↔ ((h : Bytes) × (length h ≡ 40) × (all is_hex_digit h ≡ true) × (s ≡ h ++ resume_ext))
is_resume_file_iff s = (
  λ e.
      let (size, ext, digits) = is_resume_file_parts s e in
      (
        take 40 s,
        omega (arith, length-take {0} 40 s),
        digits,
        sym (take-append-drop 40 s) ∙ ap (λ r. take 40 s ++ r) ext,
      ),
  λ (h, size, digits, e). rw e (is_resume_file_of h size digits),
)

c_str_of_hex : (s : Bytes) → all is_hex_digit s ≡ true → c_str s ≡ s
unfolding c_str is_hex_digit
c_str_of_hex [] h = refl
c_str_of_hex (c ∷ s) h = ground (arith, c_str_of_hex s)

pub from_hex-write :
    (t : HashText) (laws : IsHexText t) (h : t.Hash) → from_hex t (t.write h) ≡ some h
unfolding from_hex
from_hex-write t laws h =
    rw (laws.write_length h, c_str_of_hex (t.write h) (laws.write_digits h)) (laws.read-write h)

-- If the library writes and reads hashes as forty lower case hex digits, a hash that is written in
-- hex is read back, and the name of its resume file passes the filter of load_resumes and holds the
-- hash.
pub resume_name-from_hex :
    (t : HashText) (laws : IsHexText t) (h : t.Hash)
    → (is_resume_file (resume_name t h) ≡ true) × (from_hex t (take 40 (resume_name t h)) ≡ some h)
unfolding resume_name
resume_name-from_hex t laws h = (
  is_resume_file_of (t.write h) (laws.write_length h) (laws.write_digits h),
  rw (take-forty (t.write h) resume_ext (laws.write_length h)) (from_hex-write t laws h),
)
