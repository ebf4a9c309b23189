-- ===== src/HttpUtil/Mime.antt =====
-- mime_type.
use kedge.Base.{
  ℕ, zero, suc, ◌≡◌, refl, inl, inr, none, some, List, [], ◌∷◌, ◌++◌, arith, ◌==◌, drop, length,
  drop-length-append, All, Option-cases,
}
use kedge.Bytes.{Bytes, rfind, bytes_eq}
use kedge.HttpUtil.{to_lower, map_bytes, iequals, extension, mime_table, mime_of, mime_type}

to_lower_idem : (c : ℕ) → to_lower (to_lower c) ≡ to_lower c
unfolding to_lower
to_lower_idem c = ground arith

to_lower_dot : (c : ℕ) → (to_lower c == 46) ≡ (c == 46)
unfolding to_lower
to_lower_dot c = ground arith

map-to_lower_idem : (s : Bytes) → map_bytes to_lower (map_bytes to_lower s) ≡ map_bytes to_lower s
map-to_lower_idem [] = refl
map-to_lower_idem (c ∷ s) = cc (to_lower_idem c, map-to_lower_idem s)

rfind-map : (s : Bytes) → rfind 46 (map_bytes to_lower s) ≡ rfind 46 s
unfolding rfind
rfind-map [] = refl
rfind-map (c ∷ s) = ground (arith, rfind-map s, to_lower_dot c)

drop-map : (i : ℕ) (s : Bytes) → drop i (map_bytes to_lower s) ≡ map_bytes to_lower (drop i s)
drop-map zero s = refl
drop-map (suc i) [] = refl
drop-map (suc i) (c ∷ s) = drop-map i s

extension-map :
    (path : Bytes) → extension (map_bytes to_lower path) ≡ map_bytes to_lower (extension path)
unfolding extension
extension-map path = elim (Option-cases (rfind 46 path)) [
  | inl e ↦ rw (rfind-map path, e, extension) refl
  | inr (i, e) ↦ rw (rfind-map path, e, extension) (drop-map i path)
]

mime_of-map :
    (ext : Bytes) (t : List (Bytes × Bytes)) → mime_of (map_bytes to_lower ext) t ≡ mime_of ext t
unfolding mime_of iequals
mime_of-map ext [] = refl
mime_of-map ext ((e, ct) ∷ rest) = rw (map-to_lower_idem ext, mime_of-map ext rest) refl

-- The case of the letters in a path does not change its content type.
pub mime_type-to_lower : (path : Bytes) → mime_type (map_bytes to_lower path) ≡ mime_type path
unfolding mime_type
mime_type-to_lower path = rw (extension-map path) (mime_of-map (extension path) mime_table)

rfind_dot : (base t : Bytes) → rfind 46 t ≡ none → rfind 46 (base ++ 46 ∷ t) ≡ some (length base)
unfolding rfind
rfind_dot [] t h = ground arith
rfind_dot (c ∷ base) t h = ground (arith, rfind_dot base t h)

-- The extension of a path that ends in a dot and a text without dots.
extension-append : (base t : Bytes) → rfind 46 t ≡ none → extension (base ++ 46 ∷ t) ≡ 46 ∷ t
unfolding extension
extension-append base t h = rw (rfind_dot base t h, extension) (drop-length-append base (46 ∷ t))

mime_type-append :
    (base t ct : Bytes)
    → rfind 46 t ≡ none
    → mime_of (46 ∷ t) mime_table ≡ ct
    → mime_type (base ++ 46 ∷ t) ≡ ct
unfolding mime_type
mime_type-append base t ct h e = rw (extension-append base t h) e

-- A path that ends in one of the listed extensions has the content type that stands beside it,
-- whatever comes before.
pub mime_type-mime_table :
    (base : Bytes) → All (λ row. mime_type (base ++ row.0) ≡ row.1) mime_table
unfolding rfind mime_of iequals to_lower bytes_eq
mime_type-mime_table base = (
  mime_type-append base _ _ refl refl,
  (
    mime_type-append base _ _ refl refl,
    (
      mime_type-append base _ _ refl refl,
      (
        mime_type-append base _ _ refl refl,
        (
          mime_type-append base _ _ refl refl,
          (
            mime_type-append base _ _ refl refl,
            (
              mime_type-append base _ _ refl refl,
              (
                mime_type-append base _ _ refl refl,
                (
                  mime_type-append base _ _ refl refl,
                  (
                    mime_type-append base _ _ refl refl,
                    (
                      mime_type-append base _ _ refl refl,
                      (
                        mime_type-append base _ _ refl refl,
                        (mime_type-append base _ _ refl refl, tt),
                      ),
                    ),
                  ),
                ),
              ),
            ),
          ),
        ),
      ),
    ),
  ),
)
