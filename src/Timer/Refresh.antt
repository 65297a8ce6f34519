-- ===== src/Timer/Refresh.antt =====
-- `refresh_event_timer`.
use small_project_for_life_w.Base.{
  ℕ, ◌<◌, ◌≡◌, refl, false, none, some, ◌∷◌, ◌++◌, arith, ◌==◌, if◌then◌else◌, Bool-cases, inl, inr,
  length, ℤ, pos, negsuc,
}
use small_project_for_life_w.Memory.{Ptr, null, Yields, Store, ◌>>=◌, ◌>>◌}
use small_project_for_life_w.Memory.Chain.{first, Chain, first-ne-null, load-ok, set_item-ok}
use small_project_for_life_w.Memory.Relink.{Chain-back, Chain-set}
use small_project_for_life_w.Timer.{ImiTimer, TimerApi, timer_mode_loop, times, refresh_event_timer}
use small_project_for_life_w.Timer.Find.{Timers, find_timer, find_timer-behind, list_for_entry-find}

module _ {O : Type 0} (api : TimerApi O) (s : Store ImiTimer O) where
  -- `refresh_event_timer` gives the first timer that has the id new times, which repeat whatever
  -- its mode was, and returns 0 exactly if the system sets them; the list keeps its order.
  pub refresh_event_timer-found :
      (fuel : ℕ) (head : Ptr × ImiTimer) (pre post : Timers) (a : Ptr) (v : ImiTimer) (sec : ℤ)
      → Chain s.cells null (head ∷ pre ++ (a, v) ∷ post)
      → find_timer v.evp.sival_int pre ≡ none
      → length (pre ++ (a, v) ∷ post) < fuel
      → Yields (refresh_event_timer api fuel head.0 v.evp.sival_int sec s) (λ r t.
        let its = times timer_mode_loop sec in
        let (set, o) = api.settime v.timer its s.rest in
        (r ≡ (if set then pos 0 else negsuc 0))
        × Chain t.cells null (head ∷ pre ++ (a, record v { its = its }) ∷ post)
        × (t.rest ≡ o))
  unfolding refresh_event_timer
  refresh_event_timer-found fuel head pre post a v sec ch out h =
      let (ne, here, _, _) = Chain-back s.cells null (head ∷ pre) ((a, v) ∷ post) ch in
      let its = times timer_mode_loop sec in
      let found : find_timer v.evp.sival_int (pre ++ (a, v) ∷ post) ≡ some (a, v) =
        find_timer-behind v.evp.sival_int pre post (a, v) out refl in
      let not_null : (a == null) ≡ false = ground arith in
      let set_ch = Chain-set s.cells null (head ∷ pre) post a v (record v { its = its }) ch in
      rw
        (
          first-ne-null s.cells head.0 head.1 (pre ++ (a, v) ∷ post) ch,
          ◌>>=◌,
          list_for_entry-find s fuel head v.evp.sival_int (pre ++ (a, v) ∷ post) ch h,
          found,
          not_null,
          ◌>>=◌,
          load-ok a v (first post null) s ne here,
          ◌>>◌,
          set_item-ok a v (first post null) s ne here (record v { its = its }),
        )
        (elim (Bool-cases (api.settime v.timer its s.rest).0) [
          | inl set ↦ rw set (refl, set_ch, refl)
          | inr unset ↦ rw unset (refl, set_ch, refl)
        ])
