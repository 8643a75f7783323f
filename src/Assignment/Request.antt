-- ===== src/Assignment/Request.antt =====
-- `AssignmentRequest` of src/testudo/runtime/assignment.py: its own validators and `verify`. The
-- lengths and patterns that pydantic checks of single fields come before, an instant has its timezone,
-- and the digest is a parameter.
use Prim.Native.String.{count}
use mathlib.Core.Path.{subst}
use mathlib.Core.Bool.{true≢false}
use testudo.Prelude.{
  ℕ, ◌<◌, ◌≢◌, ◌↔◌, ap, inl, inr, ◌++◌, All, ||-cases, &&-left, &&-right, String, ◌≡◌, refl, sym,
  ◌∙◌, Bool, true, false, not, ◌&&◌, ◌||◌, List, [], ◌∷◌, Option, none, some, Result, ok, ◌>>=◌,
  ◌>>◌, raise_if, raise_if-eq-ok, bind-ok, ok-injective, ◌==◌, ==_iff, Comparable-string,
  Comparable-nat, Comparable-list, elem, distinct, all, leb, arith,
}
use testudo.Prelude.Text.{starts_with}
use testudo.Policy.Path.{Text, starts, split_slash}
use testudo.Policy.Contained.{Inside, walk_to, starts-append, walk_to-Inside_climbless}

pub data RequestError : Type 0 where
  not_agent_branch no_paths duplicate_paths unsafe_path bad_names forbidden_name : RequestError
  half_binding unpinned_image envelope_expired digest_mismatch : RequestError

pub record AssignmentRequest : Type 0 where
  pub branch : String
  pub allowed_paths : List Text
  pub capabilities : List String
  pub expires_at : ℕ
  pub image : Text
  pub artifact_store_id : Option String
  pub egress_scanner_id : Option String
  pub envelope_sha256 : String

abbrev pub is_empty : List Text → Bool
is_empty [] = true
is_empty (x ∷ xs) = false

-- The body of the loop of `safe_paths`: ".." is a part of the path exactly if it stands between slashes.
abbrev pub is_safe : Text → Bool
is_safe path =
    not (path == [])
    && not (starts path (b'/' ∷ []))
    && not (elem (b'.' ∷ b'.' ∷ []) (split_slash path))

abbrev pub forbidden : List String
forbidden = "docker" ∷ "podman" ∷ "host" ∷ "host-exec" ∷ "host-spawn" ∷ []

-- `"sha256:" in self.image`
unfoldable pub has_digest : Text → Bool
has_digest [] = false
has_digest (c ∷ s) =
    starts (c ∷ s) (b's' ∷ b'h' ∷ b'a' ∷ b'2' ∷ b'5' ∷ b'6' ∷ b':' ∷ []) || has_digest s

abbrev pub is_given : Option String → Bool
is_given none = false
is_given (some id) = true

abbrev pub same_bool : Bool → Bool → Bool
same_bool true b = b
same_bool false b = not b

-- The validators of the class in the order in which they run.
unfoldable pub validate_request : AssignmentRequest → Result RequestError AssignmentRequest
validate_request r =
    raise_if (not (starts_with r.branch "agent/")) RequestError.not_agent_branch
    >> (raise_if (is_empty r.allowed_paths) RequestError.no_paths
        >> (raise_if (not (distinct r.allowed_paths)) RequestError.duplicate_paths
            >> (raise_if (not (all is_safe r.allowed_paths)) RequestError.unsafe_path
                >> (raise_if
                      (not (distinct r.capabilities)
                        || not (all (λ c. not (c == "") && leb (count c) 128) r.capabilities))
                      RequestError.bad_names
                    >> (raise_if (not (all (λ c. not (elem c forbidden)) r.capabilities))
                          RequestError.forbidden_name
                        >> (raise_if
                              (not (
                                same_bool (is_given r.artifact_store_id)
                                  (is_given r.egress_scanner_id)))
                              RequestError.half_binding
                            >> (raise_if (not (has_digest r.image)) RequestError.unpinned_image
                                >> ok r)))))))

-- `verify`, with the digest of the request's payload.
unfoldable pub verify_request :
    (AssignmentRequest → String) → ℕ → AssignmentRequest → Result RequestError (Unit {0})
verify_request digest now r =
    raise_if (leb r.expires_at now) RequestError.envelope_expired
    >> (raise_if (not (digest r == r.envelope_sha256)) RequestError.digest_mismatch >> ok tt)

-- The beginning of `start`: the request is validated, then verified.
unfoldable pub accept :
    (AssignmentRequest → String) → ℕ → AssignmentRequest → Result RequestError AssignmentRequest
accept digest now r = validate_request r >>= λ valid. verify_request digest now valid >> ok valid

-- From any folder a path leads to one inside it, and it is neither empty nor absolute.
pub record Relative (path : Text) : Type 0 where
  pub some : path ≢ []
  pub relative : (rest : Text) → path ≢ b'/' ∷ rest
  pub inside : (folder : List Text) → Inside (walk_to (split_slash path) folder) folder

-- None of the names that stand for the host.
abbrev pub Confined : String → Type 0
Confined c = (c ≢ "docker") × (c ≢ "podman") × (c ≢ "host") × (c ≢ "host-exec") × (c ≢ "host-spawn")

pub record Scoped (r : AssignmentRequest) : Type 0 where
  pub on_agent_branch : starts_with r.branch "agent/" ≡ true
  pub some_path : r.allowed_paths ≢ []
  pub safe : All Relative r.allowed_paths
  pub no_host : All Confined r.capabilities
  pub pinned :
      (name : Text) × (digest : Text) × (r.image
        ≡ name ++ b's' ∷ b'h' ∷ b'a' ∷ b'2' ∷ b'5' ∷ b'6' ∷ b':' ∷ digest)
  pub bound : (r.artifact_store_id ≡ none) ↔ (r.egress_scanner_id ≡ none)

not-true : (b : Bool) → not b ≡ true → b ≡ false
not-true true h = cc
not-true false h = refl

is_empty-false : (paths : List Text) → is_empty paths ≡ false → paths ≢ []
is_empty-false [] h = cc
is_empty-false (x ∷ xs) h = λ same. cc

is_safe-Relative : (path : Text) → is_safe path ≡ true → Relative path
unfolding starts
is_safe-Relative path h =
    let filled = not (path == []) in
    let below = not (starts path (b'/' ∷ [])) in
    let straight = not (elem (b'.' ∷ b'.' ∷ []) (split_slash path)) in
    let both : (filled && below) ≡ true = &&-left (filled && below) straight h in
    let full : filled ≡ true = &&-left filled below both in
    let low : below ≡ true = &&-right filled below both in
    let level : straight ≡ true = &&-right (filled && below) straight h in
    record {
      some = λ same. true≢false (sym (subst (λ (p : Text). not (p == []) ≡ true) same full) ∙ refl);
      relative = λ rest same.
          true≢false
            (sym (subst (λ (p : Text). not (starts p (b'/' ∷ [])) ≡ true) same low) ∙ refl);
      inside = λ folder. walk_to-Inside_climbless (split_slash path) folder (not-true _ level);
    }

All-Relative : (paths : List Text) → all is_safe paths ≡ true → All Relative paths
All-Relative [] h = tt
All-Relative (path ∷ paths) h = (
  is_safe-Relative path (&&-left (is_safe path) (all is_safe paths) h),
  All-Relative paths (&&-right (is_safe path) (all is_safe paths) h),
)

All-Confined : (cs : List String) → all (λ c. not (elem c forbidden)) cs ≡ true → All Confined cs
All-Confined [] h = tt
All-Confined (c ∷ cs) h = (
  apart c (not-true _ (&&-left (not (elem c forbidden)) (all (λ x. not (elem x forbidden)) cs) h)),
  All-Confined cs (&&-right (not (elem c forbidden)) (all (λ x. not (elem x forbidden)) cs) h),
)
  where
    listed : (c d : String) → elem d forbidden ≡ true → elem c forbidden ≡ false → c ≢ d
    listed c d on off same = true≢false (sym on ∙ ap (λ x. elem x forbidden) (sym same) ∙ off)

    apart : (c : String) → elem c forbidden ≡ false → Confined c
    apart c off = (
      listed c "docker" refl off,
      listed c "podman" refl off,
      listed c "host" refl off,
      listed c "host-exec" refl off,
      listed c "host-spawn" refl off,
    )

has_digest-pinned :
    (image : Text)
    → has_digest image ≡ true
    → (name : Text) × (digest : Text) × (image
        ≡ name ++ b's' ∷ b'h' ∷ b'a' ∷ b'2' ∷ b'5' ∷ b'6' ∷ b':' ∷ digest)
unfolding has_digest
has_digest-pinned [] h = cc
has_digest-pinned (c ∷ s) h =
    elim (||-cases (starts (c ∷ s) (b's' ∷ b'h' ∷ b'a' ∷ b'2' ∷ b'5' ∷ b'6' ∷ b':' ∷ [])) _ h) [
      | inl here ↦ let (rest, same) = starts-append (c ∷ s) _ here in ([], rest, same)
      | inr later ↦
          let (name, digest, same) = has_digest-pinned s later in
          (c ∷ name, digest, ap (λ l. c ∷ l) same)
    ]

same_bool-bound :
    (a b : Option String) → same_bool (is_given a) (is_given b) ≡ true → (a ≡ none) ↔ (b ≡ none)
same_bool-bound none none h = (λ _. refl, λ _. refl)
same_bool-bound none (some y) h = cc
same_bool-bound (some x) none h = cc
same_bool-bound (some x) (some y) h = (λ same. cc, λ same. cc)

not-false : (b : Bool) → not b ≡ false → b ≡ true
not-false true h = refl
not-false false h = cc

validate_request-Scoped : (r q : AssignmentRequest) → validate_request r ≡ ok q → (r ≡ q) × Scoped r
unfolding validate_request
validate_request-Scoped r q h =
    let (agent, h1) =
      raise_if-eq-ok (not (starts_with r.branch "agent/")) RequestError.not_agent_branch _ h in
    let (full, h2) = raise_if-eq-ok (is_empty r.allowed_paths) RequestError.no_paths _ h1 in
    let (_, h3) =
      raise_if-eq-ok (not (distinct r.allowed_paths)) RequestError.duplicate_paths _ h2 in
    let (safe, h4) =
      raise_if-eq-ok (not (all is_safe r.allowed_paths)) RequestError.unsafe_path _ h3 in
    let (_, h5) =
      raise_if-eq-ok
        (not (distinct r.capabilities)
          || not (all (λ c. not (c == "") && leb (count c) 128) r.capabilities))
        RequestError.bad_names _ h4 in
    let (no_host, h6) =
      raise_if-eq-ok (not (all (λ c. not (elem c forbidden)) r.capabilities))
        RequestError.forbidden_name _ h5 in
    let (bound, h7) =
      raise_if-eq-ok (not (same_bool (is_given r.artifact_store_id) (is_given r.egress_scanner_id)))
        RequestError.half_binding _ h6 in
    let (pinned, h8) = raise_if-eq-ok (not (has_digest r.image)) RequestError.unpinned_image _ h7 in
    (
      ok-injective h8,
      record {
        on_agent_branch = not-false (starts_with r.branch "agent/") agent;
        some_path = is_empty-false r.allowed_paths full;
        safe = All-Relative r.allowed_paths (not-false (all is_safe r.allowed_paths) safe);
        no_host =
            All-Confined r.capabilities
              (not-false (all (λ c. not (elem c forbidden)) r.capabilities) no_host);
        pinned = has_digest-pinned r.image (not-false (has_digest r.image) pinned);
        bound = same_bool-bound r.artifact_store_id r.egress_scanner_id (
            not-false (same_bool (is_given r.artifact_store_id) (is_given r.egress_scanner_id))
              bound);
      },
    )

-- A request that `start` accepts comes back unchanged, carries its own digest, has not expired, is on
-- an agent branch, has at least one path, and paths that are all neither empty nor absolute and lead
-- from any folder to one inside it, none of the five names of the host as a capability, an image with a
-- sha256 digest, and both or none of a store and a scanner.
pub accept-Scoped :
    (digest : AssignmentRequest → String) (now : ℕ) (r q : AssignmentRequest)
    → accept digest now r ≡ ok q
    → (r ≡ q) × Scoped r × (digest r ≡ r.envelope_sha256) × (now < r.expires_at)
unfolding accept verify_request
accept-Scoped digest now r q h =
    let (valid, validated, h1) = bind-ok (validate_request r) _ q h in
    let (same, scoped) = validate_request-Scoped r valid validated in
    let (u, verified, h2) = bind-ok (verify_request digest now valid) _ q h1 in
    let (live, h3) =
      raise_if-eq-ok (leb valid.expires_at now) RequestError.envelope_expired _ verified in
    let (bound, h4) =
      raise_if-eq-ok (not (digest valid == valid.envelope_sha256)) RequestError.digest_mismatch _
        h3 in
    let equal : digest valid ≡ valid.envelope_sha256 =
      (==_iff (digest valid) valid.envelope_sha256).0
        (not-false (digest valid == valid.envelope_sha256) bound) in
    let later : now < valid.expires_at = ground (arith, live) in
    (
      same ∙ ok-injective h2,
      scoped,
      subst (λ (x : AssignmentRequest). digest x ≡ x.envelope_sha256) (sym same) equal,
      subst (λ (x : AssignmentRequest). now < x.expires_at) (sym same) later,
    )
