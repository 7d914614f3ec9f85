-- ===== src/FilePath/Examples.antt =====
-- Paths that are accepted and refused.
use file_hop_z.Base.{◌≡◌, refl, true, false, [], ◌∷◌, take}
use file_hop_z.Base.Bytes.{codes}
use file_hop_z.Errors.{failed}
use file_hop_z.FilePath.{parts, validate_relative_path, check_parts}
use file_hop_z.FilePath.Below.{
  start, resolve, IsBelow, validate_relative_path-IsBelow, validate_relative_path_refuses,
}

parts_runs : parts (codes "a//./b/") ≡ codes "a" ∷ codes "." ∷ codes "b" ∷ [] ∷ []
unfolding parts
parts_runs = refl

accepted_runs : failed (validate_relative_path (codes "a//./b")) ≡ false
unfolding validate_relative_path parts check_parts
accepted_runs = refl

trailing_slash_refused : failed (validate_relative_path (codes "a/")) ≡ true
unfolding validate_relative_path parts check_parts
trailing_slash_refused = refl

validate_relative_path-IsBelow_example :
    IsBelow
      (resolve (take 3 (parts (codes "a//./b"))) (start (codes "a//./b") (codes "out" ∷ [])))
      (codes "out" ∷ [])
validate_relative_path-IsBelow_example =
    validate_relative_path-IsBelow (codes "a//./b") 3 (codes "out" ∷ []) accepted_runs

climbing_refused : failed (validate_relative_path (codes "a/../../b")) ≡ true
unfolding parts
climbing_refused = validate_relative_path_refuses (codes "a/../../b") refl
