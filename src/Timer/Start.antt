-- ===== src/Timer/Start.antt =====
-- `start_event_timer`: what the system makes of a new timer, and what is left at its node.
use small_project_for_life_w.Base.{
  ℕ, ◌≡◌, refl, ◌∙◌, ◌≢◌, inl, inr, true, false, Option, none, some, arith, ◌==◌, if◌then◌else◌,
  Bool-cases, Option-cases, ℤ, pos, negsuc,
}
use small_project_for_life_w.Memory.{Ptr, null, node, write, Yields, Store, ◌>>=◌, ◌>>◌}
use small_project_for_life_w.Memory.Chain.{load-ok, set_item-ok}
use small_project_for_life_w.Memory.Relink.{write-ne, write_self, write-again}
use small_project_for_life_w.Timer.{
  Itimerspec, Sigevent, ImiTimer, TimerMode, TimerApi, sigev_thread, cleared, times,
  start_event_timer,
}

abbrev pub event : ℕ → ℕ → Sigevent
event timer_id time_out_func = record {
  sival_int = timer_id;
  sigev_notify = sigev_thread;
  sigev_notify_function = time_out_func;
}

-- What the system makes of a new timer: its handle, if it could be created and set, and the state.
pub armed : {O : Type 0} → TimerApi O → Sigevent → Itimerspec → O → Option ℕ × O
armed api evp its o =
    let c = api.create evp o in
    elim c.0 [
      | none ↦ (none, c.1)
      | some t ↦
          let r = api.settime t its c.1 in
          if r.0 then (some t, r.1) else (none, (api.delete t r.1).1)
    ]

module _ {O : Type 0} (api : TimerApi O) (evp : Sigevent) (its : Itimerspec) (o : O) where
  armed-uncreated : (api.create evp o).0 ≡ none → armed api evp its o ≡ (none, (api.create evp o).1)
  unfolding armed
  armed-uncreated failed = rw (armed, failed)

  -- the system creates the timer and sets it
  pub armed-set :
      (t : ℕ)
      → (api.create evp o).0 ≡ some t
      → (api.settime t its (api.create evp o).1).0 ≡ true
      → armed api evp its o ≡ (some t, (api.settime t its (api.create evp o).1).1)
  unfolding armed
  armed-set t made set = rw (armed, made, set)

  armed-unset :
      (t : ℕ)
      → (api.create evp o).0 ≡ some t
      → (api.settime t its (api.create evp o).1).0 ≡ false
      → armed api evp its o ≡ (none, (api.delete t (api.settime t its (api.create evp o).1).1).1)
  unfolding armed
  armed-unset t made unset = rw (armed, made, unset)

-- what `start_event_timer` leaves at the node
abbrev pub Started : Sigevent → Itimerspec → Option ℕ → ImiTimer → Type 0
Started evp its none v = Unit
Started evp its (some t) v = v ≡ record { evp = evp; its = its; timer = t }

abbrev pub result : Option ℕ → ℤ
result none = negsuc 0
result (some t) = pos 0

module _ {O : Type 0} (api : TimerApi O) (s : Store ImiTimer O) where
  pub start_event_timer-armed :
      (n timer_id : ℕ) (mode : TimerMode) (sec : ℤ) (time_out_func : ℕ)
      → n ≢ null
      → s.cells n ≡ some (node cleared null)
      → Yields (start_event_timer api n timer_id mode sec time_out_func s) (λ r t.
        let evp = event timer_id time_out_func in
        let (made, o) = armed api evp (times mode sec) s.rest in
        (r ≡ result made)
        × ((v : ImiTimer) × (t.cells n ≡ some (node v null)) × Started evp (times mode sec) made v)
        × ((p : Ptr) → p ≢ n → t.cells p ≡ s.cells p)
        × (t.rest ≡ o))
  unfolding start_event_timer
  start_event_timer-armed n timer_id mode sec time_out_func ne here =
      let not_null : (n == null) ≡ false = ground arith in
      let evp = event timer_id time_out_func in
      let v : ImiTimer = record cleared { evp = evp } in
      let s₁ = record s { cells = write s.cells n (some (node v null)) } in
      rw
        (
          not_null,
          ◌>>=◌,
          load-ok n cleared null s ne here,
          ◌>>◌,
          set_item-ok n cleared null s ne here v,
        )
        (elim (Option-cases (api.create evp s.rest).0) [
          | inl failed ↦
              rw (failed, armed-uncreated api evp (times mode sec) s.rest failed)
                (
                  refl,
                  (v, write_self s.cells n (some (node v null)), tt),
                  λ p out. write-ne s.cells n p (some (node v null)) out,
                  refl,
                )
          | inr (t, made) ↦
              let w : ImiTimer = record v { its = times mode sec; timer = t } in
              let s₂ = record s₁ { rest = (api.create evp s.rest).1 } in
              let here₂ = write_self s.cells n (some (node v null)) in
              let again = write-again s.cells n (some (node v null)) (some (node w null)) in
              rw
                (
                  made,
                  ◌>>=◌,
                  load-ok n v null s₂ ne here₂,
                  ◌>>◌,
                  set_item-ok n v null s₂ ne here₂ w,
                )
                (elim (Bool-cases (api.settime t (times mode sec) (api.create evp s.rest).1).0) [
                  | inl set ↦
                      rw (set, armed-set api evp (times mode sec) s.rest t made set)
                        (
                          refl,
                          (w, write_self s₁.cells n (some (node w null)), refl),
                          λ p out. again p ∙ write-ne s.cells n p (some (node w null)) out,
                          refl,
                        )
                  | inr unset ↦
                      rw (unset, armed-unset api evp (times mode sec) s.rest t made unset)
                        (
                          refl,
                          (w, write_self s₁.cells n (some (node w null)), tt),
                          λ p out. again p ∙ write-ne s.cells n p (some (node w null)) out,
                          refl,
                        )
                ])
        ])
