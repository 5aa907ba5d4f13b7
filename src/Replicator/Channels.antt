-- ===== src/Replicator/Channels.antt =====
-- No channel of the replicator is closed twice.
use text.Mathlib.Text.{◌==◌ as str_eq}
use Prim.Native.String.{String}
use distributed_systems_trai.Base.{
  ℕ, ◌≤◌, ◌<◌, ◌≡◌, refl, sym, ap, ◌∙◌, subst, ◌≢◌, ◌⊎◌, inl, inr, Bool, true, false, ◌||◌, Option,
  none, some, List, [], ◌∷◌, arith, ◌==◌, if◌then◌else◌, ne→==, Bool-cases, All, Result, ok,
}
use distributed_systems_trai.Replicator.{
  Entry, Replicator, Call, zero_value, lookup, delete, make_close, init, start, join, close_leave,
  stop, leave, shut_down, close, call, calls, joins, leaves, closes,
}

-- The channels of the entries are below the bound and descend.
Descends : ℕ → List Entry → Type 0
Descends bound [] = Unit {0}
Descends bound (e ∷ es) = (e.leave < bound) × Descends e.leave es

AllOpen : (ℕ → Bool) → List Entry → Type 0
AllOpen shut = All (λ e. shut e.leave ≡ false)

abbrev shutting : (ℕ → Bool) → ℕ → ℕ → Bool
shutting shut c c' = (c' == c) || shut c'

-- The channel of the replicator is closed just where the flag says so, the leave channels of the
-- map are distinct and open, and those that are not made yet are open.
record IsConsistent (r : Replicator) : Type 0 where
  descends : Descends r.made r.servers
  all_open : AllOpen r.shut r.servers
  agrees : (r.close ≡ some r.closed) ⊎ ((r.close ≡ none) × (r.closed ≡ false))
  unmade_open : (c : ℕ) → r.made ≤ c → r.shut c ≡ false

-- The channel is the map's one under the name, which is below the bound.
lookup-below :
    (name : String) (bound c : ℕ) (es : List Entry)
    → Descends bound es
    → lookup name es ≡ some c
    → c < bound
unfolding lookup Descends
lookup-below name bound c [] h found = ground (arith, found)
lookup-below name bound c (e ∷ es) h found =
    let below = lookup-below name e.leave c es h.1 in
    elim (Bool-cases (str_eq e.name name)) [
      | inl same ↦ ground (arith, found, same, h.0)
      | inr other ↦ ground (arith, found, other, h.0, below)
    ]

lookup-open :
    (shut : ℕ → Bool) (name : String) (c : ℕ) (es : List Entry)
    → AllOpen shut es
    → lookup name es ≡ some c
    → shut c ≡ false
unfolding lookup AllOpen
lookup-open shut name c [] h found = ground (arith, found)
lookup-open shut name c (e ∷ es) h found = elim (Bool-cases (str_eq e.name name)) [
  | inl same ↦
      let it : e.leave ≡ c = ground (arith, found, same) in subst (λ x. shut x ≡ false) it h.0
  | inr other ↦ lookup-open shut name c es h.1 (ground (arith, found, other))
]

Descends-weaken : (low high : ℕ) (es : List Entry) → low ≤ high → Descends low es → Descends high es
unfolding Descends
Descends-weaken low high [] le h = tt
Descends-weaken low high (e ∷ es) le h = (omega (arith, h.0), h.1)

delete-Descends :
    (name : String) (bound : ℕ) (es : List Entry)
    → Descends bound es
    → Descends bound (delete name es)
unfolding delete Descends
delete-Descends name bound [] h = tt
delete-Descends name bound (e ∷ es) h =
    let rest = delete-Descends name e.leave es h.1 in
    elim (Bool-cases (str_eq e.name name)) [
      | inl same ↦
          rw same (Descends-weaken e.leave bound (delete name es) (omega (arith, h.0)) rest)
      | inr other ↦ rw other (h.0, rest)
    ]

shutting-other :
    (shut : ℕ → Bool) (c c' : ℕ) → c' ≢ c → shut c' ≡ false → shutting shut c c' ≡ false
shutting-other shut c c' other h = ground (arith, other, h, ne→== c' c other)

-- Closing a channel above those of the entries leaves them open.
above-AllOpen :
    (shut : ℕ → Bool) (name : String) (c : ℕ) (es : List Entry)
    → Descends c es
    → AllOpen shut es
    → AllOpen (shutting shut c) (delete name es)
unfolding delete Descends AllOpen
above-AllOpen shut name c [] d h = tt
above-AllOpen shut name c (e ∷ es) d h =
    let rest =
      above-AllOpen shut name c es (Descends-weaken e.leave c es (omega (arith, d.0)) d.1) h.1 in
    elim (Bool-cases (str_eq e.name name)) [
      | inl same ↦ rw same rest
      | inr other ↦ rw other (shutting-other shut c e.leave (omega (arith, d.0)) h.0, rest)
    ]

delete-AllOpen :
    (shut : ℕ → Bool) (name : String) (bound c : ℕ) (es : List Entry)
    → Descends bound es
    → AllOpen shut es
    → lookup name es ≡ some c
    → AllOpen (shutting shut c) (delete name es)
unfolding lookup delete Descends AllOpen
delete-AllOpen shut name bound c [] d h found = tt
delete-AllOpen shut name bound c (e ∷ es) d h found = elim (Bool-cases (str_eq e.name name)) [
  | inl same ↦
      let it : e.leave ≡ c = ground (arith, found, same) in
      rw same (above-AllOpen shut name c es (subst (λ x. Descends x es) it d.1) h.1)
  | inr other ↦
      let deeper : lookup name es ≡ some c = ground (arith, found, other) in
      let below = lookup-below name e.leave c es d.1 deeper in
      rw other (
        shutting-other shut c e.leave (omega (arith, below)) h.0,
        delete-AllOpen shut name e.leave c es d.1 h.1 deeper,
      )
]

zero_value-IsConsistent : IsConsistent zero_value
unfolding Descends AllOpen
zero_value-IsConsistent = record {
  descends = tt;
  all_open = tt;
  agrees = inr (refl, refl);
  unmade_open = λ c le. refl;
}

init-IsConsistent :
    (r : Replicator) → IsConsistent r → IsConsistent (init r) × ((init r).close ≡ some r.closed)
unfolding init make_close
init-IsConsistent r h = elim h.agrees [
  | inl same ↦
      let made' : make_close r.close ≡ some r.closed = ground (arith, same) in
      (
        record {
          descends = h.descends;
          all_open = h.all_open;
          agrees = inl made';
          unmade_open = h.unmade_open;
        },
        made',
      )
  | inr (nil, running) ↦
      let made' : make_close r.close ≡ some r.closed = ground (arith, nil, running) in
      (
        record {
          descends = h.descends;
          all_open = h.all_open;
          agrees = inl made';
          unmade_open = h.unmade_open;
        },
        made',
      )
]

start-IsConsistent :
    (r : Replicator) (name addr : String) (found : Option ℕ)
    → IsConsistent r
    → IsConsistent (start r name addr found)
unfolding start Descends AllOpen
start-IsConsistent r name addr (some c) h = h
start-IsConsistent r name addr none h = record {
  descends = (omega arith, h.descends);
  all_open = (h.unmade_open r.made (omega arith), h.all_open);
  agrees = h.agrees;
  unmade_open = λ c le. h.unmade_open c (omega (arith, le));
}

pub join-shut : (r : Replicator) (name addr : String) → r.closed ≡ true → join r name addr ≡ init r
unfolding join init
join-shut r name addr it =
    ap (λ b. if b then init r else start (init r) name addr (lookup name r.servers)) it

pub join-running :
    (r : Replicator) (name addr : String)
    → r.closed ≡ false
    → join r name addr ≡ start (init r) name addr (lookup name r.servers)
unfolding join init
join-running r name addr it =
    ap (λ b. if b then init r else start (init r) name addr (lookup name r.servers)) it

join-IsConsistent :
    (r : Replicator) (name addr : String) → IsConsistent r → IsConsistent (join r name addr)
join-IsConsistent r name addr h =
    let ready = (init-IsConsistent r h).0 in
    elim (Bool-cases r.closed) [
      | inl it ↦ subst IsConsistent (sym (join-shut r name addr it)) ready
      | inr it ↦
          subst IsConsistent (sym (join-running r name addr it))
            (start-IsConsistent (init r) name addr (lookup name r.servers) ready)
    ]

-- A call that does not panic and keeps the invariant.
IsFine : Replicator × Result (Unit {0}) → Type 0
IsFine (r, outcome) = (outcome ≡ ok tt) × IsConsistent r

stop-IsFine :
    (r : Replicator) (name : String) (found : Option ℕ)
    → IsConsistent r
    → lookup name r.servers ≡ found
    → IsFine (stop r name found)
unfolding stop close_leave IsFine
stop-IsFine r name none h found = (refl, h)
stop-IsFine r name (some c) h found =
    let opened = lookup-open r.shut name c r.servers h.all_open found in
    let below = lookup-below name r.made c r.servers h.descends found in
    rw opened (
      refl,
      record {
        descends = delete-Descends name r.made r.servers h.descends;
        all_open = delete-AllOpen r.shut name r.made c r.servers h.descends h.all_open found;
        agrees = h.agrees;
        unmade_open =
            λ c' le. shutting-other r.shut c c' (omega (arith, le, below)) (h.unmade_open c' le);
      },
    )

pub close-shut : (r : Replicator) → r.closed ≡ true → close r ≡ (init r, ok tt)
unfolding close init
close-shut r it =
    ap
      (λ b.
        if b then (init r, ok tt) else shut_down (record (init r) { closed = true }) (init r).close)
      it

pub close-running :
    (r : Replicator)
    → r.closed ≡ false
    → close r ≡ shut_down (record (init r) { closed = true }) (init r).close
unfolding close init
close-running r it =
    ap
      (λ b.
        if b then (init r, ok tt) else shut_down (record (init r) { closed = true }) (init r).close)
      it

shut_down-IsFine :
    (r : Replicator) (flag : Option Bool)
    → IsConsistent r
    → flag ≡ some false
    → IsFine (shut_down (record r { closed = true }) flag)
unfolding shut_down IsFine
shut_down-IsFine r flag h it = rw it (
  refl,
  record {
    descends = h.descends;
    all_open = h.all_open;
    agrees = inl refl;
    unmade_open = h.unmade_open;
  },
)

close-IsFine : (r : Replicator) → IsConsistent r → IsFine (close r)
unfolding IsFine
close-IsFine r h =
    let (ready, same) = init-IsConsistent r h in
    elim (Bool-cases r.closed) [
      | inl it ↦ subst IsFine (sym (close-shut r it)) (done (init r) ready)
      | inr it ↦
          subst IsFine (sym (close-running r it))
            (shut_down-IsFine (init r) (init r).close ready (same ∙ ap some it))
    ]
  where
    done : (r : Replicator) → IsConsistent r → IsFine (r, ok tt)
    done r h = (refl, h)

call-IsFine : (r : Replicator) (c : Call) → IsConsistent r → IsFine (call r c)
unfolding call leave IsFine
call-IsFine r (joins name addr) h = (refl, join-IsConsistent r name addr h)
call-IsFine r (leaves name) h =
    stop-IsFine (init r) name (lookup name (init r).servers) (init-IsConsistent r h).0 refl
call-IsFine r closes h = close-IsFine r h

calls-cons :
    (r : Replicator) (c : Call) (cs : List Call)
    → (call r c).1 ≡ ok tt
    → calls r (c ∷ cs) ≡ calls (call r c).0 cs
unfolding calls
calls-cons r c cs fine = ground (arith, fine)

calls-IsFine : (r : Replicator) (cs : List Call) → IsConsistent r → IsFine (calls r cs)
unfolding calls IsFine
calls-IsFine r [] h = (refl, h)
calls-IsFine r (c ∷ cs) h =
    let (fine, next) = call-IsFine r c h in
    subst IsFine (sym (calls-cons r c cs fine)) (calls-IsFine (call r c).0 cs next)

-- No sequence of Join, Leave and Close on a replicator that starts as the zero value panics: no
-- channel is closed twice.
pub calls-ok : (cs : List Call) → (calls zero_value cs).1 ≡ ok tt
unfolding IsFine
calls-ok cs = (calls-IsFine zero_value cs zero_value-IsConsistent).0
