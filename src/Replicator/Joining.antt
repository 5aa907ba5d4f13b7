-- ===== src/Replicator/Joining.antt =====
-- What Join does to the map and the workers.
use text.Mathlib.TextEquality.{eq_iff}
use Prim.Native.String.{String}
use distributed_systems_trai.Base.{
  ℕ, ◌≡◌, refl, sym, ap, ◌∙◌, subst, inl, inr, Bool, true, false, Option, none, some, arith,
  Bool-cases, Option-cases,
}
use distributed_systems_trai.Replicator.{
  Replicator, lookup, make_close, init, start, join, shut_down, close,
}
use distributed_systems_trai.Replicator.Channels.{
  join-shut, join-running, close-shut, close-running,
}

init-init : (r : Replicator) → init (init r) ≡ init r
unfolding init make_close
init-init r = elim (Option-cases r.close) [ inl nil ↦ rw nil refl | inr (b, made') ↦ rw made' refl ]

started : (r : Replicator) (name addr : String) → Replicator
started r name addr = start (init r) name addr none

started_lem :
    (r : Replicator) (name addr : String)
    → (init (started r name addr) ≡ started r name addr)
      × ((started r name addr).closed ≡ r.closed)
      × (lookup name (started r name addr).servers ≡ some r.made)
unfolding started init start make_close lookup
started_lem r name addr = elim (Option-cases r.close) [
  | inl nil ↦ rw nil (refl, refl, ground (arith, eq_iff name name))
  | inr (b, made') ↦ rw made' (refl, refl, ground (arith, eq_iff name name))
]

join-known :
    (r : Replicator) (name addr : String) (c : ℕ)
    → lookup name r.servers ≡ some c
    → join r name addr ≡ init r
unfolding start
join-known r name addr c found = elim (Bool-cases r.closed) [
  | inl it ↦ join-shut r name addr it
  | inr it ↦ join-running r name addr it ∙ ap (start (init r) name addr) found
]

join-absent :
    (r : Replicator) (name addr : String)
    → r.closed ≡ false
    → lookup name r.servers ≡ none
    → join r name addr ≡ started r name addr
unfolding started
join-absent r name addr it absent =
    join-running r name addr it ∙ ap (start (init r) name addr) absent

init_fields : (r : Replicator) → ((init r).closed ≡ r.closed) × ((init r).servers ≡ r.servers)
unfolding init
init_fields r = (refl, refl)

-- Joining a server again, under whatever address, changes nothing: one worker replicates it.
pub join-join :
    (r : Replicator) (name addr again : String)
    → join (join r name addr) name again ≡ join r name addr
join-join r name addr again =
    let (closed', servers') = init_fields r in
    elim (Bool-cases r.closed) [
      | inl it ↦
          rw (join-shut r name addr it) (join-shut (init r) name again (closed' ∙ it) ∙ init-init r)
      | inr it ↦ elim (Option-cases (lookup name r.servers)) [
        | inl absent ↦
            let (same, _, found) = started_lem r name addr in
            rw (join-absent r name addr it absent)
              (join-known (started r name addr) name again r.made found ∙ same)
        | inr (c, found) ↦
            rw (join-known r name addr c found)
              (join-known (init r) name again c (ap (lookup name) servers' ∙ found) ∙ init-init r)
      ]
    ]

KeepsTo : Replicator → Replicator → Type 0
KeepsTo r r' = (r'.workers ≡ r.workers) × (r'.servers ≡ r.servers)

close_fields : (r : Replicator) → ((close r).0.closed ≡ true) × KeepsTo r (close r).0
unfolding init KeepsTo shut_down
close_fields r = elim (Bool-cases r.closed) [
  | inl it ↦
      subst (λ x. (x.0.closed ≡ true) × KeepsTo r x.0) (sym (close-shut r it)) (it, (refl, refl))
  | inr it ↦
      subst (λ x. (x.0.closed ≡ true) × KeepsTo r x.0) (sym (close-running r it))
        (down r (init r).close)
]
  where
    down :
        (r : Replicator) (flag : Option Bool)
        → ((shut_down (record (init r) { closed = true }) flag).0.closed ≡ true)
          × KeepsTo r (shut_down (record (init r) { closed = true }) flag).0
    down r none = (refl, (refl, refl))
    down r (some true) = (refl, (refl, refl))
    down r (some false) = (refl, (refl, refl))

-- After Close, Join starts nothing and adds nothing to the map.
pub join-close :
    (r : Replicator) (name addr : String)
    → ((join (close r).0 name addr).workers ≡ r.workers)
      × ((join (close r).0 name addr).servers ≡ r.servers)
unfolding KeepsTo init
join-close r name addr =
    let (it, kept) = close_fields r in rw (join-shut (close r).0 name addr it) kept
