-- ===== src/Policy/Host.antt =====
-- `_validate_host` of src/testudo/runtime/policy.py. Parsing an IP address, and the case mapping and
-- trimming of Unicode texts, are parameters.
use testudo.Prelude.{
  ℕ, Bool, true, false, not, ◌&&◌, ◌||◌, List, [], ◌∷◌, Option, none, some, Result, ok, ◌>>◌,
  raise_if, ◌==◌, Comparable-nat, Comparable-list, all, length, leb, ltb, if◌then◌else◌,
}
use testudo.Prelude.Text.{is_space}
use testudo.Policy.Path.{Text, starts}

pub data HostError : Type 0 where
  not_a_name not_exact unsafe_host invalid_host not_qualified : HostError

-- `ipaddress.ip_address`'s result: its flags and its `compressed`.
pub record Address : Type 0 where
  pub is_private : Bool
  pub is_loopback : Bool
  pub is_link_local : Bool
  pub is_multicast : Bool
  pub is_reserved : Bool
  pub is_unspecified : Bool
  pub compressed : Text

pub record Names : Type 0 where
  pub ip_address : Text → Option Address
  pub lower : Text → Text
  pub strip : Text → Text

-- `x in host` for the characters and texts of the second guard.
unfoldable pub contains : Text → Text → Bool
contains [] sub = sub == []
contains (c ∷ s) sub = starts (c ∷ s) sub || contains s sub

abbrev pub is_bad : ℕ → Bool
is_bad c =
    c == 0
    || c == b'/'
    || c == b'\\'
    || c == b'*'
    || c == b'?'
    || c == b'#'
    || c == b'@'
    || is_space c

abbrev pub is_unsafe : Address → Bool
is_unsafe a =
    a.is_private || a.is_loopback || a.is_link_local || a.is_multicast || a.is_reserved
    || a.is_unspecified

-- `host.rstrip(".")`
unfoldable pub rstrip_dots : Text → Text
rstrip_dots [] = []
rstrip_dots (c ∷ s) = let rest = rstrip_dots s in if rest == [] && c == b'.' then [] else c ∷ rest

abbrev pub reverse_onto : Text → Text → Text
reverse_onto [] done = done
reverse_onto (c ∷ s) done = reverse_onto s (c ∷ done)

-- `canonical.endswith(suffix)`
unfoldable pub ends : Text → Text → Bool
ends s suffix = starts (reverse_onto s []) (reverse_onto suffix [])

abbrev pub localhost : Text
localhost = b'l' ∷ b'o' ∷ b'c' ∷ b'a' ∷ b'l' ∷ b'h' ∷ b'o' ∷ b's' ∷ b't' ∷ []

-- `_UNSAFE_HOST_SUFFIXES`
abbrev pub unsafe_suffixes : List Text
unsafe_suffixes =
    (b'.' ∷ localhost)
    ∷ (b'.' ∷ b'l' ∷ b'o' ∷ b'c' ∷ b'a' ∷ b'l' ∷ [])
    ∷ (b'.' ∷ b'i' ∷ b'n' ∷ b't' ∷ b'e' ∷ b'r' ∷ b'n' ∷ b'a' ∷ b'l' ∷ [])
    ∷ (b'.' ∷ b'l' ∷ b'a' ∷ b'n' ∷ [])
    ∷ (b'.' ∷ b'h' ∷ b'o' ∷ b'm' ∷ b'e' ∷ [])
    ∷ []

abbrev pub is_alnum : ℕ → Bool
is_alnum c = leb b'A' c && leb c b'Z' || leb b'a' c && leb c b'z' || leb b'0' c && leb c b'9'

-- `_HOST_LABEL`, behind its first character: the last one is a letter or a digit.
abbrev pub label_rest : Text → Bool
label_rest [] = true
label_rest (c ∷ []) = is_alnum c
label_rest (c ∷ d ∷ s) = (is_alnum c || c == b'-') && label_rest (d ∷ s)

unfoldable pub is_label : Text → Bool
is_label [] = false
is_label (c ∷ s) = is_alnum c && label_rest s && leb (length s) 62

abbrev pub push : ℕ → List Text → List Text
push c [] = (c ∷ []) ∷ []
push c (part ∷ parts) = (c ∷ part) ∷ parts

-- `canonical.split(".")`
unfoldable pub labels_of : Text → List Text
labels_of [] = [] ∷ []
labels_of (c ∷ s) = let rest = labels_of s in if c == b'.' then [] ∷ rest else push c rest

abbrev pub any_suffix : Text → List Text → Bool
any_suffix s [] = false
any_suffix s (suffix ∷ suffixes) = ends s suffix || any_suffix s suffixes

-- The checks of a host name that is no address.
unfoldable pub validate_name : Text → Result HostError Text
validate_name canonical =
    raise_if (canonical == [] || canonical == localhost || any_suffix canonical unsafe_suffixes)
      HostError.unsafe_host
    >> (raise_if (not (all is_label (labels_of canonical))) HostError.invalid_host
        >> (raise_if (ltb (length (labels_of canonical)) 2) HostError.not_qualified
            >> ok canonical))

abbrev pub validate_address : Names → Text → Option Address → Result HostError Text
validate_address names host none = validate_name (names.lower (rstrip_dots host))
validate_address names host (some a) =
    raise_if (is_unsafe a) HostError.unsafe_host >> ok a.compressed

unfoldable pub validate_host : Names → Text → Result HostError Text
validate_host names host =
    raise_if (host == [] || not (host == names.strip host)) HostError.not_a_name
    >> (raise_if (contains host (b':' ∷ b'/' ∷ b'/' ∷ []) || not (all (λ c. not (is_bad c)) host))
          HostError.not_exact
        >> validate_address names host (names.ip_address host))
