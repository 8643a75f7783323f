-- ===== src/Policy/Path.antt =====
-- `_under`, `_validate_guest_path` and `_validate_limit`, with texts as lists of code points.
use testudo.Prelude.{
  ℕ, Bool, true, false, not, ◌&&◌, ◌||◌, List, [], ◌∷◌, ◌++◌, Option, none, some, ℤ, Result, ok,
  err, ◌>>◌, raise_if, ◌==◌, Comparable-nat, Comparable-list, all, leb, if◌then◌else◌,
}
use testudo.Prelude.Text.{is_space}

pub data PolicyError : Type 0 where
  not_absolute not_canonical traversal outside : PolicyError
  bad_limit host_mounts cache_without_access access_without_cache : PolicyError
  writable_evaluation overlap : PolicyError
  bad_port duplicate none_with_hosts none_with_limits none_with_cache missing_allow_list :
      PolicyError
  missing_max_bytes missing_max_duration bad_cache_write wrong_phase bad_method : PolicyError

abbrev pub Text : Type 0
Text = List ℕ

-- `path.startswith(prefix)`
unfoldable pub starts : Text → Text → Bool
starts s [] = true
starts [] (d ∷ prefix) = false
starts (c ∷ s) (d ∷ prefix) = c == d && starts s prefix

-- `prefix + "/"`
abbrev pub folder : Text → Text
folder prefix = prefix ++ b'/' ∷ []

unfoldable pub under : Text → Text → Bool
under path prefix = path == prefix || starts path (folder prefix)

-- `path.split("/")`
abbrev pub push : ℕ → List Text → List Text
push c [] = (c ∷ []) ∷ []
push c (part ∷ parts) = (c ∷ part) ∷ parts

unfoldable pub split_slash : Text → List Text
split_slash [] = [] ∷ []
split_slash (c ∷ s) = let parts = split_slash s in if c == b'/' then [] ∷ parts else push c parts

-- `"//" in path`
unfoldable pub has_double : Text → Bool
has_double [] = false
has_double (c ∷ []) = false
has_double (c ∷ d ∷ s) = c == b'/' && d == b'/' || has_double (d ∷ s)

-- `path.endswith("/")`
abbrev pub ends_slash : Text → Bool
ends_slash [] = false
ends_slash (c ∷ []) = c == b'/'
ends_slash (c ∷ d ∷ s) = ends_slash (d ∷ s)

abbrev pub is_forbidden : ℕ → Bool
is_forbidden c = c == 0 || c == b'\\' || is_space c

abbrev pub is_dots : Text → Bool
is_dots part = part == b'.' ∷ [] || part == b'.' ∷ b'.' ∷ []

-- `_validate_guest_path`. Its first guard makes the path start with "/", so that `not path` adds
-- nothing; a path of two slashes or more at its start, which PurePosixPath treats alone, has been
-- refused before its parts are looked at.
unfoldable pub validate_guest_path : Text → Text → Result PolicyError Text
validate_guest_path prefix path =
    raise_if (not (starts path (b'/' ∷ []))) PolicyError.not_absolute
    >> (raise_if
          (not (all (λ c. not (is_forbidden c)) path)
            || has_double path
            || ends_slash path && not (path == b'/' ∷ []))
          PolicyError.not_canonical
        >> (raise_if (not (all (λ part. not (is_dots part)) (split_slash path)))
              PolicyError.traversal
            >> (raise_if (not (under path prefix)) PolicyError.outside >> ok path)))

-- `_MAX_LIMIT`
abbrev pub max_limit : ℕ
max_limit = 9223372036854775807

-- `_validate_limit` of an integer
abbrev pub limit : ℤ → Result PolicyError ℤ
limit (ℤ.pos n) =
    if n == 0 || not (leb n max_limit) then err PolicyError.bad_limit else ok (ℤ.pos n)
limit (ℤ.negsuc n) = err PolicyError.bad_limit

abbrev pub as_set : Result PolicyError ℤ → Result PolicyError (Option ℤ)
as_set (ok i) = ok (some i)
as_set (err e) = err e

unfoldable pub validate_limit : Option ℤ → Result PolicyError (Option ℤ)
validate_limit none = ok none
validate_limit (some value) = as_set (limit value)
