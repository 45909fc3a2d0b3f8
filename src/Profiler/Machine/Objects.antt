-- ===== src/Profiler/Machine/Objects.antt =====
-- src/profiler.cpp, the making, the destruction and the change of objects keep a process sound.
use jointprof.Profiler.Defs.{SigAction, Impl, Process, update, construct, destruct}
use jointprof.Profiler.Guards.{update_other}
use jointprof.Profiler.Machine.{IsProper, IsSound}
use jointprof.Profiler.Session.{Profiling, update_self}
use jointprof.Common.{
  ==-cases, ℕ, ◌≡◌, ◌≢◌, refl, sym, ap, ◌∙◌, subst, Bool, true, false, some, ◌==◌, ==-ne,
  if◌then◌else◌, inl, inr, Bytes,
}

module _ {Other : Type 0} where
  -- A change of one object does not reach another one.
  pub Profiling-elsewhere :
      (this q : ℕ) (file : Bytes) (impl : Impl) (live : ℕ → Bool) (p : Process Other)
      → q ≢ this
      → live q ≡ true
      → Profiling q file p
      → Profiling q file (record p { impls = update p.impls this impl; live = live })
  Profiling-elsewhere this q file impl live p ne l r =
      let same = update_other p.impls this impl q ne in
      record {
        published = r.published;
        alive = l;
        stream = ap (λ (i : Impl). i.ofs) same ∙ r.stream;
        chained = λ e. r.chained (ap (λ (i : Impl). i.oldact.handler) (sym same) ∙ e);
      }

  -- An object with a closed stream takes the place `this`, where nothing profiles.
  pub IsSound-update :
      (this : ℕ) (impl : Impl) (live : ℕ → Bool) (p : Process Other)
      → IsSound p
      → p.static_impl ≢ some this
      → IsProper impl.initact
      → impl.ofs.is_open ≡ false
      → ((q : ℕ) → q ≢ this → live q ≡ p.live q)
      → IsSound (record p { impls = update p.impls this impl; live = live })
  IsSound-update this impl live p s not_this proper shut same_live = record {
    proper = s.proper;
    found = λ q l. elim (==-cases q this) [
      | inl e ↦
          subst (λ t. IsProper (update p.impls this impl t).initact) (sym e)
            (subst (λ (i : Impl). IsProper i.initact) (sym (update_self p.impls this impl)) proper)
      | inr ne ↦
          subst (λ (i : Impl). IsProper i.initact) (sym (update_other p.impls this impl q ne))
            (s.found q (sym (same_live q ne) ∙ l))
    ];
    running = λ q e.
        let (file, r) = s.running q e in
        let ne : q ≢ this = λ h. not_this (e ∙ ap some h) in
        (file, Profiling-elsewhere this q file impl live p ne (same_live q ne ∙ r.alive) r);
    closed = λ q l idle. elim (==-cases q this) [
      | inl e ↦
          ap (λ t. (update p.impls this impl t).ofs.is_open) e
          ∙ (ap (λ (i : Impl). i.ofs.is_open) (update_self p.impls this impl) ∙ shut)
      | inr ne ↦
          ap (λ (i : Impl). i.ofs.is_open) (update_other p.impls this impl q ne)
          ∙ s.closed q (sym (same_live q ne) ∙ l) idle
    ];
  }

  -- A live object where one dies is another one.
  not_running :
      (this : ℕ) (p : Process Other) → IsSound p → p.live this ≡ false → p.static_impl ≢ some this
  not_running this p s dead e =
      let (file, r) = s.running this e in
      let clash : true ≡ false = sym r.alive ∙ dead in absurd (cc)

  pub construct-IsSound :
      (this : ℕ) (p : Process Other) → p.live this ≡ false → IsSound p → IsSound (construct this p)
  unfolding construct
  construct-IsSound this p dead s =
      IsSound-update this _ (λ q. if q == this then true else p.live q) p s
        (not_running this p s dead) s.proper refl (λ q ne. rw (==-ne q this ne) refl)

  pub destruct-IsSound :
      (this : ℕ) (p : Process Other)
      → p.static_impl ≢ some this
      → IsSound p
      → IsSound (destruct this p)
  unfolding destruct
  destruct-IsSound this p other s = record {
    proper = s.proper;
    found = λ q l. s.found q (was_live q l);
    running = λ q e.
        let (file, r) = s.running q e in
        let ne : q ≢ this = λ h. other (e ∙ ap some h) in
        (
          file,
          record {
            published = r.published;
            alive = rw (==-ne q this ne) r.alive;
            stream = r.stream;
            chained = r.chained;
          },
        );
    closed = λ q l idle. s.closed q (was_live q l) idle;
  }
    where
      was_live : (q : ℕ) → (if q == this then false else p.live q) ≡ true → p.live q ≡ true
      was_live q l = go (q == this) l
        where
          go : (b : Bool) → (if b then false else p.live q) ≡ true → p.live q ≡ true
          go true e = absurd (cc)
          go false e = e

  -- The disposition may change at any time.
  pub change-IsSound :
      (action : SigAction) (p : Process Other)
      → IsProper action
      → IsSound p
      → IsSound (record p { action = action })
  change-IsSound action p proper s = record {
    proper = proper;
    found = s.found;
    running = λ q e.
        let (file, r) = s.running q e in
        (
          file,
          record {
            published = r.published;
            alive = r.alive;
            stream = r.stream;
            chained = r.chained;
          },
        );
    closed = s.closed;
  }
