-- ===== src/Db/Life.antt =====
-- From `imi_db_mi_init` to `imi_db_mi_deinit`.
use small_project_for_life_w.Base.{
  ℕ, suc, ◌<◌, ◌≡◌, refl, ◌∙◌, ◌≢◌, true, false, none, some, List, [], ◌∷◌, arith, ◌==◌, map, pos,
  negsuc,
}
use small_project_for_life_w.Memory.{
  Ptr, null, node, write, ok, fault, Yields, Store, ◌>>=◌, ◌>>◌, put,
}
use small_project_for_life_w.Memory.Chain.{Chain, Yields-bind}
use small_project_for_life_w.Memory.Relink.{write_self, write-ne}
use small_project_for_life_w.Timer.{
  ImiTimer, TimerApi, cleared, times, timer_mode_loop, timer_init, create_event_timer,
}
use small_project_for_life_w.Timer.Start.{armed, event}
use small_project_for_life_w.Timer.Create.{create_event_timer-Outcome}
use small_project_for_life_w.Timer.Delete.{delete_all_timer-faults}
use small_project_for_life_w.Db.{IniApi, DbName, DbInfoKeys}
use small_project_for_life_w.Db.Create.{
  Disk, with_hash, create_loop, freed_dicts, imi_db_mi_init, imi_db_mi_deinit,
}

timer_init-ok :
    {O : Type 0} (s : Store ImiTimer O) (head : Ptr)
    → head ≢ null
    → timer_init head s
      ≡ ok head (record s { cells = write s.cells head (some (node cleared null)) })
unfolding timer_init put
timer_init-ok s head ne = ground arith

module _ {D O : Type 0} (api : IniApi D) (timers : TimerApi O) (s : Store ImiTimer O) where
  -- If the databases can be created and the system arms the timer for the periodic save, then
  -- `imi_db_mi_init` returns 0, and `imi_db_mi_deinit` reads freed memory.
  pub deinit-faults :
      (keys : List DbInfoKeys) (dbs : List (DbName D)) (disk : Disk) (fuel k head n sync h : ℕ)
      → (create_loop api keys 0 (map with_hash dbs) disk).0 ≡ true
      → head ≢ null
      → n ≢ null
      → n ≢ head
      → s.cells n ≡ none
      → 0 < fuel
      → (armed timers (event 0 sync) (times timer_mode_loop (pos 60)) s.rest).0 ≡ some h
      → Yields
          (imi_db_mi_init api timers keys dbs disk fuel head n sync s)
          (λ r t. (r.ret ≡ pos 0) × (imi_db_mi_deinit timers (suc k) r.db_timer r.dbs t ≡ fault))
  unfolding imi_db_mi_init imi_db_mi_deinit
  deinit-faults keys dbs disk fuel k head n sync h fine head_ne n_ne apart unused enough made =
      let head_not_null : (head == null) ≡ false = ground arith in
      let s₁ = record s { cells = write s.cells head (some (node cleared null)) } in
      let armed_timer : ImiTimer = record {
        evp = event 0 sync;
        its = times timer_mode_loop (pos 60);
        timer = h;
      } in
      let ch : Chain s₁.cells null ((head, cleared) ∷ []) =
        (head_ne, write_self s.cells head (some (node cleared null)), refl, tt) in
      rw (fine, ◌>>=◌, timer_init-ok s head head_ne)
        (Yields-bind _ _ (create_event_timer timers fuel n head 0 timer_mode_loop (pos 60) sync) _
          s₁
          (create_event_timer-Outcome timers s₁ fuel n (head, cleared) [] 0 timer_mode_loop (pos 60)
            sync ch enough refl n_ne
            (write-ne s.cells head n (some (node cleared null)) apart ∙ unused))
          λ r t (at_r, outcome, rest).
            let ch' : Chain t.cells null ((head, cleared) ∷ (n, armed_timer) ∷ []) =
              rw made at outcome in
            (
              refl,
              rw (
                head_not_null,
                ◌>>◌,
                delete_all_timer-faults timers t k (head, cleared) ((n, armed_timer) ∷ []) ch',
              ),
            ))

  -- If a database cannot be created, `imi_db_mi_init` returns -1 and makes no timer, and
  -- `imi_db_mi_deinit` frees the dictionaries that are there and touches no timer.
  pub init_fails-deinit :
      (keys : List DbInfoKeys) (dbs : List (DbName D)) (disk : Disk) (fuel k head n sync : ℕ)
      → (create_loop api keys 0 (map with_hash dbs) disk).0 ≡ false
      → Yields (imi_db_mi_init api timers keys dbs disk fuel head n sync s) (λ r t.
        (r.ret ≡ negsuc 0)
        × (r.dbs ≡ (create_loop api keys 0 (map with_hash dbs) disk).1)
        × (imi_db_mi_deinit timers k r.db_timer r.dbs t ≡ ok (freed_dicts r.dbs) s))
  unfolding imi_db_mi_init imi_db_mi_deinit
  init_fails-deinit keys dbs disk fuel k head n sync failed = rw failed (refl, refl, refl)
