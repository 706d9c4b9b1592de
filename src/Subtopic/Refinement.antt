-- ===== src/Subtopic/Refinement.antt =====
-- Runs of calls on the table of subscriptions, and the same calls on the abstract table.
use mathlib.Core.Path.{fun_ext, subst}
use poseidon.Prelude.{
  ℕ, zero, ◌<◌, ◌≡◌, refl, sym, ap, Bool, none, some, List, [], ◌∷◌, length, ◌||◌, ltb,
  if◌then◌else◌, inl, inr, Bool-cases,
}
use poseidon.Subtopic.{max_subs, path_size, Table, subscribe, unsubscribe, tick}
use poseidon.Subtopic.Table.{
  IsValid, subscribe-IsValid, unsubscribe-IsValid, subscribe_refused, unsubscribe-eq-is_subscribed,
}
use poseidon.Subtopic.Expiry.{tick-IsValid}
use poseidon.Subtopic.Capacity.{
  stands, occupied, IsListed, occupied-view, subscribe-room, subscribe-IsListed,
  unsubscribe-IsListed, tick-IsListed,
}
use poseidon.Subtopic.View.{
  Spec, view, assign, age, is_some, view-subscribe, view-unsubscribe, view-tick, is_subscribed-view,
}

pub data Op : Type 0 where
  call_subscribe : List ℕ → ℕ → Op
  call_unsubscribe : List ℕ → Op
  call_tick : Op

-- The calls of a run, with what each returns; a tick returns nothing.
unfoldable pub run : List Op → Table → List Bool × Table
run [] table = ([], table)
run (Op.call_subscribe path ttl ∷ ops) table =
    let (ok, next) = subscribe table path ttl in
    let (results, last) = run ops next in (ok ∷ results, last)
run (Op.call_unsubscribe path ∷ ops) table =
    let (ok, next) = unsubscribe table path in
    let (results, last) = run ops next in (ok ∷ results, last)
run (Op.call_tick ∷ ops) table = run ops (tick table)

-- The same calls on a function from paths to times to live. A subscription is refused where its path
-- has none and `max_subs` of the given paths have one.
unfoldable pub replay : List (List ℕ) → List Op → Spec → List Bool × Spec
replay paths [] f = ([], f)
replay paths (Op.call_subscribe path ttl ∷ ops) f =
    let ok = is_some (f path) || ltb (occupied paths f) max_subs in
    let (results, last) = replay paths ops (if ok then assign f path (some ttl) else f) in
    (ok ∷ results, last)
replay paths (Op.call_unsubscribe path ∷ ops) f =
    let (results, last) = replay paths ops (assign f path none) in
    (is_some (f path) ∷ results, last)
replay paths (Op.call_tick ∷ ops) f = replay paths ops (λ q. age (f q))

-- The paths of the subscriptions fit their array, and each is listed once.
abbrev pub AllListed : List (List ℕ) → List Op → Type 0
AllListed paths [] = zero ≡ zero
AllListed paths (Op.call_subscribe path ttl ∷ ops) =
    (length path < path_size) × (stands paths path ≡ 1) × AllListed paths ops
AllListed paths (Op.call_unsubscribe path ∷ ops) = AllListed paths ops
AllListed paths (Op.call_tick ∷ ops) = AllListed paths ops

-- What a subscription makes of the view, accepted or not.
view-subscribe_all :
    (table : Table) (path : List ℕ) (ttl : ℕ)
    → length path < path_size
    → view (subscribe table path ttl).1
      ≡ (if (subscribe table path ttl).0 then assign (view table) path (some ttl) else view table)
view-subscribe_all table path ttl fit = elim (Bool-cases (subscribe table path ttl).0) [
  | inl ok ↦ rw ok (fun_ext (λ q. view-subscribe q path ttl table fit ok))
  | inr refused ↦ rw refused (ap view (subscribe_refused table path ttl refused))
]

-- From a valid table, a run of subscriptions to paths of at most 511 bytes, unsubscriptions and
-- ticks returns what the same calls return on a function from paths to times to live that refuses
-- a subscription exactly where its path has no time to live and 64 of the listed paths have one,
-- and leaves a table that reads as that function. The list is any in which each path of the table
-- and of the subscriptions stands once.
pub run_refines :
    (paths : List (List ℕ)) (ops : List Op) (table : Table)
    → IsValid table
    → IsListed paths table
    → AllListed paths ops
    → ((run ops table).0 ≡ (replay paths ops (view table)).0)
      × (view (run ops table).1 ≡ (replay paths ops (view table)).1)
unfolding run replay
run_refines paths [] table valid listed fits = (refl, refl)
run_refines paths (Op.call_subscribe path ttl ∷ ops) table valid listed (fit, once, fits) =
    let next : Table = (subscribe table path ttl).1 in
    let accepted : (subscribe table path ttl).0
        ≡ (is_some (view table path) || ltb (occupied paths (view table)) max_subs) =
      rw (occupied-view paths table valid listed, sym (is_subscribed-view table path))
        (subscribe-room table path ttl) in
    let rest =
      run_refines paths ops next (subscribe-IsValid table path ttl fit valid)
        (subscribe-IsListed paths table path ttl fit once listed) fits in
    rw (sym accepted, sym (view-subscribe_all table path ttl fit))
      (ap (◌∷◌ (subscribe table path ttl).0) rest.0, rest.1)
run_refines paths (Op.call_unsubscribe path ∷ ops) table valid listed fits =
    let viewed : view (unsubscribe table path).1 ≡ assign (view table) path none =
      fun_ext (λ q. view-unsubscribe q path table valid) in
    let rest =
      run_refines paths ops (unsubscribe table path).1 (unsubscribe-IsValid table path valid)
        (unsubscribe-IsListed paths table path listed) fits in
    rw (sym viewed, unsubscribe-eq-is_subscribed table path, is_subscribed-view table path)
      (ap (◌∷◌ (is_some (view table path))) rest.0, rest.1)
run_refines paths (Op.call_tick ∷ ops) table valid listed fits =
    let viewed : view (tick table) ≡ (λ q. age (view table q)) =
      fun_ext (λ q. view-tick q table (valid.unique q)) in
    let rest =
      run_refines paths ops (tick table) (tick-IsValid table valid)
        (tick-IsListed paths table listed) fits in
    subst
      (λ (f : Spec).
        ((run ops (tick table)).0 ≡ (replay paths ops f).0)
        × (view (run ops (tick table)).1 ≡ (replay paths ops f).1))
      viewed rest
