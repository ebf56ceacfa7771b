-- ===== src/OneActive.antt =====
-- At most one checkpoint of an app is active: the invariant that `set_checkpoint_active` is for,
-- and the changes of the table of checkpoints that keep it.
pub mod Keeps
pub mod Switching
pub mod Commands
use time_tracker.Common.{
  ◌≡◌, ◌≢◌, refl, sym, ap, subst, ◌∙◌, ◌⊎◌, inl, inr, Bool, true, false, not, ◌&&◌, ◌==◌, ==_iff,
  Bool-cases, List, [], ◌∷◌, ◌++◌, map, filter, any, Has, Has-append_cases, filter-Has, map-Has,
  any-Has, if◌then◌else◌, is_true, arith,
}
use native.Mathlib.Decide.{ℕ_discrete}
use time_tracker.Common.Word.{I32}
use time_tracker.Entities.{CheckpointModel, DateTime}
use time_tracker.Store.{checkpoints, has_key}
use time_tracker.Queries.{set_active, deactivate, is_rival}
use time_tracker.Queries.Activation.{Keyed, after_set}

abbrev pub OneActive : List CheckpointModel → Type 0
OneActive cs =
    (r s : CheckpointModel)
    → Has r cs
    → Has s cs
    → is_true r.is_active ≡ true
    → is_true s.is_active ≡ true
    → r.app_id ≡ s.app_id
    → r.id ≡ s.id

pub record IsConsistent (cs : List CheckpointModel) : Type 0 where
  pub keyed : Keyed checkpoints cs
  pub one_active : OneActive cs

pub IsConsistent-nil : IsConsistent []
IsConsistent-nil = record { keyed = λ r s m n e. absurd m; one_active = λ r s m n a b e. absurd m }

-- Rows may go.
pub IsConsistent-subset :
    (xs ys : List CheckpointModel)
    → IsConsistent xs
    → ((r : CheckpointModel) → Has r ys → Has r xs)
    → IsConsistent ys
IsConsistent-subset xs ys v sub = record {
  keyed = λ r s m n e. v.keyed r s (sub r m) (sub s n) e;
  one_active = λ r s m n a b e. v.one_active r s (sub r m) (sub s n) a b e;
}

pub IsConsistent-filter :
    (p : CheckpointModel → Bool) (xs : List CheckpointModel)
    → IsConsistent xs
    → IsConsistent (filter p xs)
IsConsistent-filter p xs v = IsConsistent-subset xs _ v (λ r m. (filter-Has p r xs m).0)

-- A change that keeps a row's id and app, and never activates it.
pub record IsTame (f : CheckpointModel → CheckpointModel) : Type 0 where
  pub same_id : (r : CheckpointModel) → (f r).id ≡ r.id
  pub same_app : (r : CheckpointModel) → (f r).app_id ≡ r.app_id
  pub calm : (r : CheckpointModel) → is_true (f r).is_active ≡ true → is_true r.is_active ≡ true

Keyed-map :
    (f : CheckpointModel → CheckpointModel) (xs : List CheckpointModel)
    → ((r : CheckpointModel) → (f r).id ≡ r.id)
    → Keyed checkpoints xs
    → Keyed checkpoints (map f xs)
Keyed-map f xs same_id keyed r s m n e =
    let (x, hx, p) = map-Has f r xs m in
    let (y, hy, q) = map-Has f s xs n in
    let pi : r.id ≡ (f x).id = ap (λ (z : CheckpointModel). z.id) p in
    let qi : s.id ≡ (f y).id = ap (λ (z : CheckpointModel). z.id) q in
    let same : x ≡ y = keyed x y hx hy (cc (same_id x, same_id y)) in cc (ap f same)

pub IsConsistent-map :
    (f : CheckpointModel → CheckpointModel) (xs : List CheckpointModel)
    → IsTame f
    → IsConsistent xs
    → IsConsistent (map f xs)
IsConsistent-map f xs t v = record {
  keyed = Keyed-map f xs t.same_id v.keyed;
  one_active = λ r s m n a b e.
      let (x, hx, p) = map-Has f r xs m in
      let (y, hy, q) = map-Has f s xs n in
      let pi : r.id ≡ (f x).id = ap (λ (z : CheckpointModel). z.id) p in
      let qi : s.id ≡ (f y).id = ap (λ (z : CheckpointModel). z.id) q in
      let pa : r.app_id ≡ (f x).app_id = ap (λ (z : CheckpointModel). z.app_id) p in
      let qa : s.app_id ≡ (f y).app_id = ap (λ (z : CheckpointModel). z.app_id) q in
      let same_app : x.app_id ≡ y.app_id = cc (t.same_app x, t.same_app y) in
      let ax = t.calm x (subst (λ (z : CheckpointModel). is_true z.is_active ≡ true) p a) in
      let ay = t.calm y (subst (λ (z : CheckpointModel). is_true z.is_active ≡ true) q b) in
      cc (v.one_active x y hx hy ax ay same_app, t.same_id x, t.same_id y);
}

-- A new row, inactive and under a key of its own.
pub IsConsistent-append :
    (xs : List CheckpointModel) (c : CheckpointModel)
    → IsConsistent xs
    → has_key checkpoints c.id xs ≡ false
    → is_true c.is_active ≡ false
    → IsConsistent (xs ++ c ∷ [])
IsConsistent-append xs c v fresh idle = record {
  keyed = λ r s m n e. elim (Has-append_cases r xs (c ∷ []) m) [
    | inl old ↦ elim (Has-append_cases s xs (c ∷ []) n) [
      | inl old' ↦ v.keyed r s old old' e
      | inr new' ↦ absurd (stale r old (ground arith))
    ]
    | inr new ↦ elim (Has-append_cases s xs (c ∷ []) n) [
      | inl old' ↦ absurd (stale s old' (ground arith))
      | inr new' ↦ ground arith
    ]
  ];
  one_active = λ r s m n a b e. elim (Has-append_cases r xs (c ∷ []) m) [
    | inl old ↦ elim (Has-append_cases s xs (c ∷ []) n) [
      | inl old' ↦ v.one_active r s old old' a b e
      | inr new' ↦ ground arith
    ]
    | inr new ↦ ground arith
  ];
}
  where
    stale : (r : CheckpointModel) → Has r xs → r.id ≡ c.id → ⊥
    stale r m e = ground (arith, any-Has (λ x. x.id == c.id) r xs m)

-- Once a checkpoint is set, no other of its app is active, and those of other apps are as they were.
after_set_own :
    (c x : CheckpointModel) (earlier now : DateTime)
    → is_true (after_set c.id c.app_id true earlier now x).is_active ≡ true
    → x.app_id ≡ c.app_id
    → x.id ≡ c.id
after_set_own c x earlier now h e = ground arith

after_set_other :
    (c x : CheckpointModel) (earlier now : DateTime)
    → (x.id ≡ c.id → x.app_id ≡ c.app_id)
    → x.app_id ≢ c.app_id
    → is_true (after_set c.id c.app_id true earlier now x).is_active ≡ true
    → is_true x.is_active ≡ true
after_set_other c x earlier now same other h = ground arith

after_set-same_id :
    (id app_id : I32) (b : Bool) (earlier now : DateTime) (r : CheckpointModel)
    → (after_set id app_id b earlier now r).id ≡ r.id
after_set-same_id id app_id b earlier now r = ground arith

after_set-same_app :
    (id app_id : I32) (b : Bool) (earlier now : DateTime) (r : CheckpointModel)
    → (after_set id app_id b earlier now r).app_id ≡ r.app_id
after_set-same_app id app_id b earlier now r = ground arith

-- The rows after a checkpoint of the table has been set.
pub IsConsistent-after_set :
    (xs : List CheckpointModel) (c : CheckpointModel) (is_active : Bool) (earlier now : DateTime)
    → IsConsistent xs
    → Has c xs
    → IsConsistent (map (after_set c.id c.app_id is_active earlier now) xs)
IsConsistent-after_set xs c false earlier now v m =
    IsConsistent-map _ xs
      (record {
        same_id = λ r. ground arith;
        same_app = λ r. ground arith;
        calm = λ r. ground arith;
      })
      v
IsConsistent-after_set xs c true earlier now v m = record {
  keyed = Keyed-map set xs (after_set-same_id c.id c.app_id true earlier now) v.keyed;
  one_active = λ r s hr hs a b e.
      let (x, hx, p) = map-Has set r xs hr in
      let (y, hy, q) = map-Has set s xs hs in
      let pa =
        ap (λ (z : CheckpointModel). z.app_id) p
        ∙ after_set-same_app c.id c.app_id true earlier now x in
      let qa =
        ap (λ (z : CheckpointModel). z.app_id) q
        ∙ after_set-same_app c.id c.app_id true earlier now y in
      let pi =
        ap (λ (z : CheckpointModel). z.id) p ∙ after_set-same_id c.id c.app_id true earlier now x in
      let qi =
        ap (λ (z : CheckpointModel). z.id) q ∙ after_set-same_id c.id c.app_id true earlier now y in
      let ax = subst (λ (z : CheckpointModel). is_true z.is_active ≡ true) p a in
      let ay = subst (λ (z : CheckpointModel). is_true z.is_active ≡ true) q b in
      let same : x.app_id ≡ y.app_id = cc in pi ∙ meet x y hx hy ax ay same ∙ sym qi;
}
  where
    set : CheckpointModel → CheckpointModel
    set = after_set c.id c.app_id true earlier now

    own : (x : CheckpointModel) → Has x xs → x.id ≡ c.id → x.app_id ≡ c.app_id
    own x hx e = ap (λ (z : CheckpointModel). z.app_id) (v.keyed x c hx m e)

    meet :
        (x y : CheckpointModel)
        → Has x xs
        → Has y xs
        → is_true (set x).is_active ≡ true
        → is_true (set y).is_active ≡ true
        → x.app_id ≡ y.app_id
        → x.id ≡ y.id
    meet x y hx hy ax ay same = elim (ℕ_discrete x.app_id c.app_id) [
      | yes e ↦
          after_set_own c x earlier now ax e ∙ sym (after_set_own c y earlier now ay (sym same ∙ e))
      | no ne ↦
          v.one_active x y hx hy (after_set_other c x earlier now (own x hx) ne ax)
            (after_set_other c y earlier now (own y hy) (λ e. ne (same ∙ e)) ay) same
    ]
