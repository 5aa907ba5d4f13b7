-- ===== src/RaftPebble/Events/Safety.antt =====
-- What holds in the states that the store and its event listener reach.
use distributed_systems_trai.Base.{
  ℕ, ◌+◌, ◌-◌, ◌≤◌, ◌<◌, ◌≡◌, refl, ap, ◌∙◌, ◌≢◌, ◌⊎◌, inl, inr, Bool, true, false, [], ◌∷◌, ◌++◌,
  arith, Bool-cases, length, length-append, ok,
}
use distributed_systems_trai.RaftPebble.Config.{RaftLogRocksDbConfig, is_busy}
use distributed_systems_trai.RaftPebble.Events.{
  Db, no_db, open_db, closed_db, Kv, notify, run_worker, set_event_listener, Phase, opening, has_db,
  listening, stopped, closed_down, Reached, start, event, work, opened, listen, stop, close,
}

-- What holds in each phase.
record IsUnset (db : Db) (kv : Kv) : Type 0 where
  pub at_db : kv.db ≡ db
  pub db_set : kv.db_set ≡ false
  pub event_set : kv.event_set ≡ false
  pub calls : kv.calls ≡ []

record IsListening (has_callback custom : Bool) (db : Db) (kv : Kv) : Type 0 where
  pub at_db : kv.db ≡ db
  pub db_set : kv.db_set ≡ true
  pub called : has_callback ≡ true → 0 < kv.workers + length kv.calls
  pub once : custom ≡ true → kv.workers + length kv.calls ≤ 1

-- From Stop on. The workers that are left were started behind it.
record IsClosing (has_callback custom : Bool) (db : Db) (kv : Kv) : Type 0 where
  pub at_db : kv.db ≡ db
  pub db_set : kv.db_set ≡ true
  pub called : has_callback ≡ true → 0 < length kv.calls
  pub once : custom ≡ true → (kv.workers ≡ 0) × (length kv.calls ≤ 1)

Holds : Bool → Bool → Phase → Kv → Type 0
Holds has_callback custom opening kv = IsUnset no_db kv × (custom ≡ true → kv.workers ≡ 0)
Holds has_callback custom has_db kv = IsUnset open_db kv × (custom ≡ true → kv.workers ≡ 0)
Holds has_callback custom listening kv = IsListening has_callback custom open_db kv × Unit {0}
Holds has_callback custom stopped kv = IsClosing has_callback custom open_db kv × Unit {0}
Holds has_callback custom closed_down kv = IsClosing has_callback custom closed_db kv × Unit {0}

IsFine : Bool → Bool → Phase → Kv → Type 0
IsFine has_callback custom opening kv = kv.faulted ≡ false
IsFine has_callback custom has_db kv = kv.faulted ≡ false
IsFine has_callback custom listening kv = kv.faulted ≡ false
IsFine has_callback custom stopped kv = kv.faulted ≡ false
IsFine has_callback custom closed_down kv =
    (kv.faulted ≡ false) ⊎ ((has_callback ≡ true) × (custom ≡ false))

module _ (cfg : RaftLogRocksDbConfig) (has_callback custom : Bool) where
  notified-IsClosing :
      (kv : Kv) (db : Db)
      → custom ≡ false
      → IsClosing has_callback custom db kv
      → IsClosing has_callback custom db (notify kv)
  unfolding notify
  notified-IsClosing kv db own u = record {
    at_db = u.at_db;
    db_set = u.db_set;
    called = u.called;
    once = λ it. cc (it, own);
  }

  notified :
      (p : Phase) (kv : Kv)
      → custom ≡ false
      → Holds has_callback custom p kv
      → Holds has_callback custom p (notify kv)
  unfolding Holds notify
  notified opening kv own (u, none_yet) = (
    record { at_db = u.at_db; db_set = u.db_set; event_set = u.event_set; calls = u.calls },
    λ it. cc (it, own),
  )
  notified has_db kv own (u, none_yet) = (
    record { at_db = u.at_db; db_set = u.db_set; event_set = u.event_set; calls = u.calls },
    λ it. cc (it, own),
  )
  notified listening kv own (u, _) = (
    record {
      at_db = u.at_db;
      db_set = u.db_set;
      called = λ it. omega arith;
      once = λ it. cc (it, own);
    },
    tt,
  )
  notified stopped kv own (u, _) = (notified-IsClosing kv open_db own u, tt)
  notified closed_down kv own (u, _) = (notified-IsClosing kv closed_db own u, tt)

  notified-IsFine :
      (p : Phase) (kv : Kv)
      → IsFine has_callback custom p kv
      → IsFine has_callback custom p (notify kv)
  unfolding IsFine notify
  notified-IsFine opening kv fine = fine
  notified-IsFine has_db kv fine = fine
  notified-IsFine listening kv fine = fine
  notified-IsFine stopped kv fine = fine
  notified-IsFine closed_down kv fine = fine

  module _ (mem_table_size sublevels : ℕ) (kv : Kv) where
    abbrev ran : Kv
    ran = run_worker cfg has_callback mem_table_size sublevels kv

    run_worker-unset : kv.db_set ≡ false → ran ≡ record kv { workers = kv.workers - 1 }
    unfolding run_worker
    run_worker-unset unset = ground (arith, unset)

    run_worker-silent : has_callback ≡ false → ran ≡ record kv { workers = kv.workers - 1 }
    unfolding run_worker
    run_worker-silent silent = ground (arith, silent)

    run_worker-reports :
        kv.db_set ≡ true
        → has_callback ≡ true
        → kv.db ≡ open_db
        → ran ≡ record kv {
          workers = kv.workers - 1;
          calls = kv.calls ++ (is_busy cfg mem_table_size sublevels ∷ []);
        }
    unfolding run_worker
    run_worker-reports set loud at_db = ground (arith, set, loud, at_db)

    run_worker-faults :
        kv.db_set ≡ true
        → has_callback ≡ true
        → kv.db ≡ closed_db
        → ran ≡ record kv { workers = kv.workers - 1; faulted = true }
    unfolding run_worker
    run_worker-faults set loud at_db = ground (arith, set, loud, at_db)

    worked-IsUnset :
        (db : Db)
        → IsUnset db kv
        → kv.faulted ≡ false
        → (custom ≡ true → kv.workers ≡ 0)
        → IsUnset db ran × (custom ≡ true → ran.workers ≡ 0) × (ran.faulted ≡ false)
    worked-IsUnset db u fine none_yet = rw (run_worker-unset u.db_set) (
      record { at_db = u.at_db; db_set = u.db_set; event_set = u.event_set; calls = u.calls },
      λ it. omega (arith, none_yet it),
      fine,
    )

    worked-IsListening :
        0 < kv.workers
        → IsListening has_callback custom open_db kv
        → kv.faulted ≡ false
        → IsListening has_callback custom open_db ran × (ran.faulted ≡ false)
    worked-IsListening some_left u fine = elim (Bool-cases has_callback) [
      | inr silent ↦ rw (run_worker-silent silent) (
        record {
          at_db = u.at_db;
          db_set = u.db_set;
          called = λ it. cc (it, silent);
          once = λ it. omega (arith, u.once it);
        },
        fine,
      )
      | inl loud ↦
          let busy = is_busy cfg mem_table_size sublevels in
          let more : length (kv.calls ++ (busy ∷ [])) ≡ length kv.calls + 1 =
            length-append kv.calls (busy ∷ []) in
          rw (run_worker-reports u.db_set loud u.at_db) (
            record {
              at_db = u.at_db;
              db_set = u.db_set;
              called = λ it. omega (arith, more);
              once = λ it. omega (arith, more, u.once it);
            },
            fine,
          )
    ]

    silent-IsClosing :
        (db : Db)
        → has_callback ≡ false
        → IsClosing has_callback custom db kv
        → IsClosing has_callback custom db ran × (ran.faulted ≡ kv.faulted)
    silent-IsClosing db silent u = rw (run_worker-silent silent) (
      record {
        at_db = u.at_db;
        db_set = u.db_set;
        called = u.called;
        once = λ it. omega (arith, u.once it);
      },
      refl,
    )

    worked-stopped :
        0 < kv.workers
        → IsClosing has_callback custom open_db kv
        → IsClosing has_callback custom open_db ran × (ran.faulted ≡ kv.faulted)
    worked-stopped some_left u = elim (Bool-cases has_callback) [
      | inr silent ↦ silent-IsClosing open_db silent u
      | inl loud ↦
          let busy = is_busy cfg mem_table_size sublevels in
          rw (run_worker-reports u.db_set loud u.at_db) (
            record {
              at_db = u.at_db;
              db_set = u.db_set;
              called = λ it. omega (arith, length-append kv.calls (busy ∷ []), u.called it);
              once = λ it. absurd (omega (arith, u.once it));
            },
            refl,
          )
    ]

    worked-closed :
        0 < kv.workers
        → IsClosing has_callback custom closed_db kv
        → (kv.faulted ≡ false) ⊎ ((has_callback ≡ true) × (custom ≡ false))
        → IsClosing has_callback custom closed_db ran
          × ((ran.faulted ≡ false) ⊎ ((has_callback ≡ true) × (custom ≡ false)))
    worked-closed some_left u fine = elim (Bool-cases has_callback) [
      | inr silent ↦
          let (u', same) = silent-IsClosing closed_db silent u in
          (u', elim fine [ inl e ↦ inl (same ∙ e) | inr late ↦ inr late ])
      | inl loud ↦ rw (run_worker-faults u.db_set loud u.at_db) (
        record {
          at_db = u.at_db;
          db_set = u.db_set;
          called = u.called;
          once = λ it. absurd (omega (arith, u.once it));
        },
        elim (Bool-cases custom) [
          | inl it ↦ absurd (omega (arith, u.once it))
          | inr own ↦ inr (loud, own)
        ],
      )
    ]

  worked :
      (p : Phase) (mem_table_size sublevels : ℕ) (kv : Kv)
      → 0 < kv.workers
      → Holds has_callback custom p kv
      → IsFine has_callback custom p kv
      → Holds has_callback custom p (ran mem_table_size sublevels kv)
        × IsFine has_callback custom p (ran mem_table_size sublevels kv)
  unfolding Holds IsFine
  worked opening m n kv left (u, none_yet) fine =
      let (u', none', fine') = worked-IsUnset m n kv no_db u fine none_yet in ((u', none'), fine')
  worked has_db m n kv left (u, none_yet) fine =
      let (u', none', fine') = worked-IsUnset m n kv open_db u fine none_yet in ((u', none'), fine')
  worked listening m n kv left (u, _) fine =
      let (u', fine') = worked-IsListening m n kv left u fine in ((u', tt), fine')
  worked stopped m n kv left (u, _) fine =
      let (u', same) = worked-stopped m n kv left u in ((u', tt), same ∙ fine)
  worked closed_down m n kv left (u, _) fine =
      let (u', fine') = worked-closed m n kv left u fine in ((u', tt), fine')

  set_event_listener-ok :
      (kv : Kv)
      → kv.db ≡ open_db
      → kv.event_set ≡ false
      → set_event_listener kv
        ≡ (record kv { event_set = true; db_set = true; workers = kv.workers + 1 }, ok tt)
  unfolding set_event_listener
  set_event_listener-ok kv at_db fresh = ground (arith, at_db, fresh)

  Reached-Holds :
      {p : Phase} {kv : Kv}
      → Reached cfg has_callback custom p kv
      → Holds has_callback custom p kv × IsFine has_callback custom p kv
  unfolding Holds IsFine
  Reached-Holds start =
      ((record { at_db = refl; db_set = refl; event_set = refl; calls = refl }, λ it. refl), refl)
  Reached-Holds (event {p = p} {kv = kv} own r) =
      let (h, fine) = Reached-Holds r in (notified p kv own h, notified-IsFine p kv fine)
  Reached-Holds (work {p = p} {kv = kv} m n left r) =
      let (h, fine) = Reached-Holds r in worked p m n kv left h fine
  Reached-Holds (opened r) =
      let ((u, none_yet), fine) = Reached-Holds r in
      (
        (
          record { at_db = refl; db_set = u.db_set; event_set = u.event_set; calls = u.calls },
          none_yet,
        ),
        fine,
      )
  Reached-Holds (listen {kv = kv} r) =
      let ((u, none_yet), fine) = Reached-Holds r in
      rw (set_event_listener-ok kv u.at_db u.event_set) (
        (
          record {
            at_db = u.at_db;
            db_set = refl;
            called = λ it. omega arith;
            once = λ it. omega (arith, none_yet it, ap length u.calls);
          },
          tt,
        ),
        fine,
      )
  Reached-Holds (stop idle r) =
      let ((u, _), fine) = Reached-Holds r in
      (
        (
          record {
            at_db = u.at_db;
            db_set = u.db_set;
            called = λ it. omega (arith, u.called it);
            once = λ it. (idle, omega (arith, u.once it));
          },
          tt,
        ),
        fine,
      )
  Reached-Holds (close r) =
      let ((u, _), fine) = Reached-Holds r in
      ((record { at_db = refl; db_set = u.db_set; called = u.called; once = u.once }, tt), inl fine)

  IsFine-cases :
      (p : Phase) (kv : Kv)
      → IsFine has_callback custom p kv
      → (kv.faulted ≡ false) ⊎ ((p ≡ closed_down) × (has_callback ≡ true) × (custom ≡ false))
  unfolding IsFine
  IsFine-cases opening kv fine = inl fine
  IsFine-cases has_db kv fine = inl fine
  IsFine-cases listening kv fine = inl fine
  IsFine-cases stopped kv fine = inl fine
  IsFine-cases closed_down kv (inl fine) = inl fine
  IsFine-cases closed_down kv (inr (loud, own)) = inr (refl, loud, own)

  Holds-called :
      (p : Phase) (kv : Kv)
      → Holds has_callback custom p kv
      → ((p ≢ stopped) × (p ≢ closed_down)) ⊎ ((has_callback ≡ false) ⊎ (0 < length kv.calls))
  unfolding Holds
  Holds-called opening kv h = inl ((λ e. cc e), (λ e. cc e))
  Holds-called has_db kv h = inl ((λ e. cc e), (λ e. cc e))
  Holds-called listening kv h = inl ((λ e. cc e), (λ e. cc e))
  Holds-called stopped kv (u, _) =
      inr (elim (Bool-cases has_callback) [ inl it ↦ inr (u.called it) | inr none ↦ inl none ])
  Holds-called closed_down kv (u, _) =
      inr (elim (Bool-cases has_callback) [ inl it ↦ inr (u.called it) | inr none ↦ inl none ])

  Holds-once :
      (p : Phase) (kv : Kv) → Holds has_callback custom p kv → custom ≡ true → length kv.calls ≤ 1
  unfolding Holds
  Holds-once opening kv (u, _) it = omega (arith, ap length u.calls)
  Holds-once has_db kv (u, _) it = omega (arith, ap length u.calls)
  Holds-once listening kv (u, _) it = omega (arith, u.once it)
  Holds-once stopped kv (u, _) it = (u.once it).1
  Holds-once closed_down kv (u, _) it = (u.once it).1

  -- Whenever Pebble reports events, and in whatever order the workers run, no worker asks for the
  -- metrics of a database that is not open before New has opened it or until Close has closed it;
  -- behind Close that happens at most where there is a callback and New has made the options of
  -- Pebble itself. Where the options were given, the callback is called at most once. Once Close has
  -- stopped the listener, a callback, if there is one, was called at least once.
  pub Reached-metrics :
      {p : Phase} {kv : Kv}
      → Reached cfg has_callback custom p kv
      → ((kv.faulted ≡ false) ⊎ ((p ≡ closed_down) × (has_callback ≡ true) × (custom ≡ false)))
        × ((custom ≡ false) ⊎ (length kv.calls ≤ 1))
        × (((p ≢ stopped) × (p ≢ closed_down)) ⊎ ((has_callback ≡ false) ⊎ (0 < length kv.calls)))
  Reached-metrics {p = p} {kv = kv} r =
      let (h, fine) = Reached-Holds r in
      (
        IsFine-cases p kv fine,
        elim (Bool-cases custom) [ inl it ↦ inr (Holds-once p kv h it) | inr own ↦ inl own ],
        Holds-called p kv h,
      )
