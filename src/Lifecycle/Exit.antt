-- ===== src/Lifecycle/Exit.antt =====
-- The block behind the exit of a worker: the calls that it makes, when it returns.
use mathlib.Core.Path.{subst}
use testudo.Prelude.{
  ℕ, suc, ◌+◌, length, append-nil, append_assoc, String, ◌≡◌, refl, sym, ap, ◌∙◌, Bool, true, false,
  List, [], ◌∷◌, ◌++◌, Option, none, some, ℤ, ok, arith,
}
use testudo.Prelude.State.{Returns, bind-Returns, finally-Returns, if-Returns}
use testudo.Lifecycle.{
  Event, HostCall, Lifecycle, World, raised_by, call_host, wipe_vm, revoke_once, tell_exit,
  finish_exit,
}

-- The worker is closed, its token revoked and its machine wiped.
pub record Released (t : Lifecycle) : Type 0 where
  pub closed : t.closed ≡ true
  pub revoked : t.revoked ≡ true
  pub wiped : t.wiped ≡ true

module _ (world : World) where
  -- Calls of the host from the one with this number on, of which none raised.
  abbrev pub Quiet : ℕ → List HostCall → Type 0
  Quiet n [] = Unit
  Quiet n (c ∷ cs) = (world.fault n c ≡ none) × Quiet (suc n) cs

  -- The calls of an exit: cleanup, the revocation of the token, the wipe, cleanup and the sink.
  abbrev pub exit_calls : ℤ → String → String → List HostCall
  exit_calls status id at =
      HostCall.cleanup
      ∷ HostCall.revoke id
      ∷ HostCall.wipe
      ∷ HostCall.cleanup
      ∷ HostCall.sink (Event.worker_exit status id at)
      ∷ []

  -- What an exit has done between two states.
  pub record Exited (status : ℤ) (s t : Lifecycle) : Type 0 where
    pub released : Released t
    pub at : String
    pub called : t.calls ≡ s.calls ++ exit_calls status s.token.token_id at
    pub quiet : Quiet (length s.calls) (exit_calls status s.token.token_id at)

  -- Between two states these calls were made and none raised, and the flags are these.
  record Progress (cs : List HostCall) (wiped revoked : Bool) (s t : Lifecycle) : Type 0 where
    pub made : t.calls ≡ s.calls ++ cs
    pub quiet : Quiet (length s.calls) cs
    pub on_wiped : t.wiped ≡ wiped
    pub on_revoked : t.revoked ≡ revoked

  length-append : (xs ys : List HostCall) → length (xs ++ ys) ≡ length xs + length ys
  length-append [] ys = omega arith
  length-append (x ∷ xs) ys = omega (arith, length-append xs ys)

  Quiet-append :
      (n m : ℕ) (cs : List HostCall) (c : HostCall)
      → m ≡ n + length cs
      → Quiet n cs
      → world.fault m c ≡ none
      → Quiet n (cs ++ c ∷ [])
  Quiet-append n m [] c at quiet one =
      let same : m ≡ n = omega (arith, at) in
      (subst (λ (k : ℕ). world.fault k c ≡ none) same one, tt)
  Quiet-append n m (x ∷ cs) c at (first, quiet) one =
      (first, Quiet-append (suc n) m cs c (omega (arith, at)) quiet one)

  raised_by-none : (o : Option String) → raised_by o ≡ ok tt → o ≡ none
  raised_by-none none h = refl
  raised_by-none (some f) h = cc

  call_host-Progress :
      {cs : List HostCall} {w r : Bool} (c : HostCall) (s u t : Lifecycle)
      → Progress cs w r s u
      → Returns (call_host world c) u tt t
      → Progress (cs ++ c ∷ []) w r s t
  unfolding call_host
  call_host-Progress {cs} c s u t p h =
      let one = raised_by-none (world.fault (length u.calls) c) h.result in
      let at = ap length p.made ∙ length-append s.calls cs in
      subst (Progress (cs ++ c ∷ []) _ _ s) h.left (record {
        made = ap (λ l. l ++ c ∷ []) p.made ∙ append_assoc s.calls cs (c ∷ []);
        quiet = Quiet-append (length s.calls) (length u.calls) cs c at p.quiet one;
        on_wiped = p.on_wiped;
        on_revoked = p.on_revoked;
      })

  revoke_once-Progress :
      {cs : List HostCall} {w : Bool} (id : String) (s u t : Lifecycle)
      → Progress cs w false s u
      → Returns (revoke_once world id) u tt t
      → Progress (cs ++ HostCall.revoke id ∷ []) w true s t
  unfolding revoke_once
  revoke_once-Progress {cs} {w} id s u t p h =
      if-Returns u.revoked _ _ (ok tt) t (Progress (cs ++ HostCall.revoke id ∷ []) w true s t)
        h.result h.left (λ on _ _. let off = p.on_revoked in cc)
        (λ _ r l.
          call_host-Progress (HostCall.revoke id) s (record u { revoked = true }) t
            (record { made = p.made; quiet = p.quiet; on_wiped = p.on_wiped; on_revoked = refl })
            (record { result = r; left = l }))

  wipe_vm-Progress :
      {cs : List HostCall} {r : Bool} (s u t : Lifecycle)
      → Progress cs false r s u
      → Returns (wipe_vm world) u tt t
      → Progress ((cs ++ HostCall.wipe ∷ []) ++ HostCall.cleanup ∷ []) true r s t
  unfolding wipe_vm
  wipe_vm-Progress {cs} {r} s u t p h =
      let C = Progress ((cs ++ HostCall.wipe ∷ []) ++ HostCall.cleanup ∷ []) true r s t in
      if-Returns u.wiped _ _ (ok tt) t C h.result h.left (λ on _ _. let off = p.on_wiped in cc)
        (λ _ q l.
          let next : Lifecycle = record u { wiped = true } in
          let (v, wiping, cleaning) =
            finally-Returns (call_host world HostCall.wipe) (call_host world HostCall.cleanup) next
              tt t (record { result = q; left = l }) in
          call_host-Progress HostCall.cleanup s v t
            (call_host-Progress HostCall.wipe s next v
              (record {
                made = p.made;
                quiet = p.quiet;
                on_wiped = refl;
                on_revoked = p.on_revoked;
              })
              wiping)
            cleaning)

  tell_exit-Exited :
      (status : ℤ) (at : ℕ) (s u t : Lifecycle)
      → Progress (HostCall.cleanup ∷ []) false false s u
      → Returns (tell_exit world status at s) u tt t
      → Exited status s t
  tell_exit-Exited status at s u t p h =
      let id = s.token.token_id in
      let event = Event.worker_exit status id (world.lib.format_time at) in
      let (_, u1, revoking, h1) = bind-Returns (revoke_once world id) _ u tt t h in
      let (_, u2, wiping, h2) = bind-Returns (wipe_vm world) _ u1 tt t h1 in
      let (_, u3, telling, h3) = bind-Returns _ _ u2 tt t h2 in
      let done =
        call_host-Progress (HostCall.sink event) s u2 u3
          (wipe_vm-Progress s u1 u2 (revoke_once-Progress id s u u1 p revoking) wiping) telling in
      subst (Exited status s) h3.left (record {
        released = record { closed = refl; revoked = done.on_revoked; wiped = done.on_wiped };
        at = world.lib.format_time at;
        called = done.made;
        quiet = done.quiet;
      })

  -- Nothing has been revoked or wiped yet.
  abbrev pub Unreleased : Lifecycle → Type 0
  Unreleased s = (s.revoked ≡ false) × (s.wiped ≡ false)

  pub finish_exit-Exited :
      (status : ℤ) (at : ℕ) (s t : Lifecycle)
      → s.closed ≡ false
      → Unreleased s
      → Returns (finish_exit world status at) s tt t
      → Exited status s t
  unfolding finish_exit
  finish_exit-Exited status at s t unclosed (unrevoked, unwiped) h =
      if-Returns s.closed _ _ (ok tt) t (Exited status s t) h.result h.left (λ shut r l. cc)
        (λ _ r l.
          let (u, first, last) =
            finally-Returns (call_host world HostCall.cleanup) (tell_exit world status at s) s tt t
              (record { result = r; left = l }) in
          tell_exit-Exited status at s u t
            (call_host-Progress HostCall.cleanup s s u
              (record {
                made = sym (append-nil s.calls);
                quiet = tt;
                on_wiped = unwiped;
                on_revoked = unrevoked;
              })
              first)
            last)
