-- ===== src/Capability/RoundTrip.antt =====
-- A token that was issued verifies with the same keys, from its issue until it expires.
use mathlib.Core.Path.{subst}
use testudo.Prelude.{
  ℕ, ◌≤◌, ◌<◌, String, ◌≡◌, refl, sym, ap, ◌∙◌, true, false, inl, inr, List, [], ◌∷◌, ◌++◌, Option,
  none, some, Result, ok, ◌>>=◌, Bool-cases, ◌==◌, Comparable-string, ==_refl, leb, ltb,
  ok-injective, bind-ok, arith, if◌then◌else◌,
}
use testudo.Prelude.Dict.{Dict, get}
use testudo.Value.{Value}
use testudo.Capability.{
  Reason, Raised, Token, schema, items_of, base_payload, with_signer, payload, to_dict,
}
use testudo.Capability.Verify.{
  Bytes, Library, Signer, Keys, canonical, parse_time, as_text, get_or, is_text, not_one, nonempty,
  texts, metadata, listed, gather, text_field, list_field, string_list, from_payload,
  compare_digest, is_ascii, unsigned, check_signature, check_times, verify,
}

texts-items_of : (l : List String) → texts (items_of l) ≡ some l
texts-items_of [] = refl
texts-items_of (s ∷ l) = rw (texts-items_of l) refl

module _ {B : Type 0} where
  nonempty-ok :
      (reason : Reason) (s : String) (rest : String → Result Raised B) {b : B}
      → (nonempty reason (some s) >>= rest) ≡ ok b
      → rest s ≡ ok b
  nonempty-ok reason s rest h = elim (Bool-cases (s == "")) [
    | inl empty ↦ cc (rw empty at h)
    | inr full ↦ rw full at h
  ]

  list-ok :
      (name : String) (l : List String) (rest : List String → Result Raised B) {b : B}
      → (string_list name (some (items_of l)) >>= rest) ≡ ok b
      → rest l ≡ ok b
  list-ok name l rest {b} h =
      subst (λ (x : Option (List String)). (listed name x >>= rest) ≡ ok b) (texts-items_of l) h

  metadata-ok :
      (given : String) (d : Dict Value) (name default : String) (rest : String → Result Raised B)
      {b : B}
      → (given == "") ≡ false
      → (metadata (some given) d name default >>= rest) ≡ ok b
      → rest given ≡ ok b
  metadata-ok given d name default rest full h = rw full at h

module _ (lib : Library) where
  pub from_payload-token :
      (extra : Dict Value) (u t : Token) (sig algorithm key_id : String)
      → (algorithm == "") ≡ false
      → (key_id == "") ≡ false
      → from_payload lib (base_payload u ++ extra) sig (some algorithm) (some key_id) ≡ ok t
      → record u { signature = sig; signature_algorithm = algorithm; key_id = key_id } ≡ t
  unfolding from_payload gather text_field list_field get
  from_payload-token extra u t sig algorithm key_id full_a full_k h0 =
      let h1 = nonempty-ok Reason.missing_field u.token_id _ h0 in
      let h2 = nonempty-ok Reason.missing_field u.run_id _ h1 in
      let h3 = nonempty-ok Reason.missing_field u.lease_id _ h2 in
      let h4 = nonempty-ok Reason.missing_field u.host_id _ h3 in
      let h5 = nonempty-ok Reason.missing_field u.vm_id _ h4 in
      let h6 = nonempty-ok Reason.missing_field u.repository _ h5 in
      let h7 = nonempty-ok Reason.missing_field u.branch _ h6 in
      let h8 = nonempty-ok Reason.missing_field u.base_sha _ h7 in
      let h9 = nonempty-ok Reason.missing_field u.issued_at _ h8 in
      let h10 = nonempty-ok Reason.missing_field u.expires_at _ h9 in
      let h11 = nonempty-ok Reason.missing_field u.nonce _ h10 in
      let h12 = list-ok "capabilities" u.capabilities _ h11 in
      let h13 = list-ok "allowed_paths" u.allowed_paths _ h12 in
      let h14 = list-ok "allowed_commands" u.allowed_commands _ h13 in
      let d = base_payload u ++ extra in
      let h15 = metadata-ok algorithm d "signature_alg" "HS256" _ full_a h14 in
      let h16 = metadata-ok key_id d "key_id" "prototype" _ full_k h15 in
      let (issued, parsed, h17) = bind-ok (parse_time lib u.issued_at) _ t h16 in
      let (expires, parsed_too, h18) = bind-ok (parse_time lib u.expires_at) _ t h17 in
      ok-injective h18

  -- What `from_payload` made of a payload that the metadata was written to, it makes of it without
  -- being given the metadata.
  from_payload-hmac :
      (u : Token) (sig : String)
      → from_payload lib (base_payload u) sig (some "HS256") (some "prototype")
        ≡ from_payload lib (base_payload u) sig none none
  unfolding from_payload get
  from_payload-hmac u sig = refl

  from_payload-signer :
      (u : Token) (sig algorithm key_id : String)
      → (algorithm == "") ≡ false
      → (key_id == "") ≡ false
      → from_payload lib
          (with_signer (base_payload u) algorithm key_id)
          sig
          (some algorithm)
          (some key_id)
        ≡ from_payload lib (with_signer (base_payload u) algorithm key_id) sig none none
  unfolding from_payload get
  from_payload-signer u sig algorithm key_id full_a full_k =
      let d = with_signer (base_payload u) algorithm key_id in
      let text : (s : String)
          → (s == "") ≡ false
          → (if s == "" then nonempty Reason.bad_metadata (some s) else ok s)
            ≡ nonempty Reason.bad_metadata (some s) =
        (λ s full. rw full refl) in
      ap (λ a. gather lib d sig a (metadata (some key_id) d "key_id" "prototype"))
        (text algorithm full_a)
      ∙ ap (λ k. gather lib d sig (metadata none d "signature_alg" "HS256") k) (text key_id full_k)

  verify_of :
      (keys : Keys) (now : ℕ) (value : Dict Value) (sig : String) (t : Token)
      → not_one keys.signing_key keys.signer ≡ false
      → is_text (get_or (unsigned value) "schema" Value.null) schema ≡ true
      → as_text (get_or value "signature" Value.null) ≡ some sig
      → check_signature lib keys.signing_key keys.signer (unsigned value) sig ≡ ok true
      → from_payload lib (unsigned value) sig none none ≡ ok t
      → check_times lib now t ≡ ok t
      → verify lib keys now value ≡ ok t
  unfolding verify
  verify_of keys now value sig t one_key right_schema signed valid token timely =
      simp (one_key, right_schema, signed, valid, token) timely

  parse_time-ok : (s : String) (t : ℕ) → lib.parse_time s ≡ some t → parse_time lib s ≡ ok t
  unfolding parse_time
  parse_time-ok s t h = rw (h, parse_time) refl

  pub check_times-ok :
      (t : Token) (issued expires now : ℕ)
      → lib.parse_time t.issued_at ≡ some issued
      → lib.parse_time t.expires_at ≡ some expires
      → issued ≤ now
      → now < expires
      → check_times lib now t ≡ ok t
  unfolding check_times
  check_times-ok t issued expires now at until begun live =
      let not_before : ltb now issued ≡ false = ground arith in
      let not_after : leb expires now ≡ false = ground arith in
      simp (
        parse_time-ok t.issued_at issued at,
        not_before,
        parse_time-ok t.expires_at expires until,
        not_after,
      )

  -- With an HMAC key.
  pub verify-hmac :
      (key bytes : Bytes) (u : Token) (now : ℕ)
      → canonical lib (base_payload u) ≡ ok bytes
      → is_ascii (lib.hmac key bytes) ≡ true
      → (t : Token)
      → t ≡ record u {
        signature = lib.hmac key bytes;
        signature_algorithm = "HS256";
        key_id = "prototype";
      }
      → from_payload lib (base_payload u) (lib.hmac key bytes) (some "HS256") (some "prototype")
        ≡ ok t
      → check_times lib now t ≡ ok t
      → verify lib (record { signing_key = some key; signer = none }) now (to_dict t) ≡ ok t
  unfolding to_dict payload unsigned check_signature get compare_digest
  verify-hmac key bytes u now encoded ascii t same accepted timely =
      let mac = lib.hmac key bytes in
      let keys : Keys = record { signing_key = some key; signer = none } in
      let shape : to_dict t ≡ base_payload u ++ ("signature", Value.str mac) ∷ [] =
        ap to_dict same in
      subst (λ (d : Dict Value). verify lib keys now d ≡ ok t) (sym shape)
        (verify_of keys now (base_payload u ++ ("signature", Value.str mac) ∷ []) mac t refl refl
          refl (simp (encoded, ascii, ==_refl mac)) (sym (from_payload-hmac u mac) ∙ accepted)
          timely)

  -- With a signer, whose algorithm is not the one that stands for HMAC.
  pub verify-signer :
      (s : Signer) (bytes : Bytes) (u : Token) (now : ℕ)
      → canonical lib (with_signer (base_payload u) s.algorithm s.key_id) ≡ ok bytes
      → s.verify bytes (s.sign bytes) ≡ true
      → (s.algorithm == "HS256") ≡ false
      → (s.algorithm == "") ≡ false
      → (s.key_id == "") ≡ false
      → (t : Token)
      → t ≡ record u {
        signature = s.sign bytes;
        signature_algorithm = s.algorithm;
        key_id = s.key_id;
      }
      → from_payload lib
          (with_signer (base_payload u) s.algorithm s.key_id)
          (s.sign bytes)
          (some s.algorithm)
          (some s.key_id)
        ≡ ok t
      → check_times lib now t ≡ ok t
      → verify lib (record { signing_key = none; signer = some s }) now (to_dict t) ≡ ok t
  unfolding to_dict payload unsigned check_signature get
  verify-signer s bytes u now encoded valid other full_a full_k t same accepted timely =
      let sig = s.sign bytes in
      let keys : Keys = record { signing_key = none; signer = some s } in
      let signed = with_signer (base_payload u) s.algorithm s.key_id in
      let shape : to_dict t ≡ signed ++ ("signature", Value.str sig) ∷ [] =
        ap to_dict same ∙ rw other refl in
      subst (λ (d : Dict Value). verify lib keys now d ≡ ok t) (sym shape)
        (verify_of keys now (signed ++ ("signature", Value.str sig) ∷ []) sig t refl refl refl
          (simp (==_refl s.algorithm, ==_refl s.key_id, encoded, valid))
          (sym (from_payload-signer u sig s.algorithm s.key_id full_a full_k) ∙ accepted) timely)
