-- ===== src/Catalogue/WellFormed.antt =====
-- The invariant of the catalogue, and merges and splits.
use noshiro_db_backend.Base.{
  ℕ, ◌≡◌, refl, sym, ap, ◌∙◌, ◌==◌, List, Option, some, String, IsKeyed, IsKeyed-update, get,
}
use mathlib.Core.Path.{subst}
use noshiro_db_backend.Base.Result.{ok}
use noshiro_db_backend.Catalogue.Model.{
  Lifecycle, Entity, MergeEvent, SplitEvent, Method, Snapshot, World,
}
use noshiro_db_backend.Catalogue.Redirects.{redirect_of, resolve}
use noshiro_db_backend.Catalogue.Merge.{set_lifecycle, merge, split, is_public, is_public_row}
use noshiro_db_backend.Catalogue.Merge.Granted.{merge-IsMerged}
use noshiro_db_backend.Catalogue.Merge.Forest.{IsForest, IsMerged-IsForest}
use noshiro_db_backend.Catalogue.Merge.Library.{OnePerCluster, IsMerged-OnePerCluster}
use noshiro_db_backend.Catalogue.Merge.Safety.{is_public-root}
use noshiro_db_backend.Catalogue.Merge.Links.{
  IsMerged-IsLinked, IsLinked, IsLinked-IsSafe, IsLink-set_lifecycle, IsLink,
}
use noshiro_db_backend.Catalogue.Merge.Split.{split-IsSplit, split-IsForest, step_before}

-- Keys are unique, every entity resolves, a user has at most one entry in a cluster, and a redirect
-- leads to a row of the same kind that is at least as restricted.
pub record IsWellFormed (w : World) : Type 0 where
  pub keyed : IsKeyed Entity.id w.entities
  pub forest : IsForest w.redirects
  pub one : OnePerCluster w
  pub linked : IsLinked w

set_lifecycle-IsKeyed :
    (state : Lifecycle) (e : ℕ) (t : List Entity)
    → IsKeyed Entity.id t
    → IsKeyed Entity.id (set_lifecycle state e t)
set_lifecycle-IsKeyed state e t u =
    IsKeyed-update Entity.id (λ row. row.id == e) (λ row. record row { lifecycle = state }) t
      (λ x. refl) u

-- A merge that returns leaves a well-formed catalogue well formed.
pub merge-IsWellFormed :
    (w : World) (source target : ℕ) (method : Method) (reason : String) (given : Option Snapshot)
    (new_id : ℕ) (res : MergeEvent × World)
    → IsWellFormed w
    → merge w source target method reason given new_id ≡ ok res
    → IsWellFormed res.1
merge-IsWellFormed w source target method reason given new_id res v h =
    let m = merge-IsMerged w source target method reason given new_id res h in
    record {
      keyed =
          subst (IsKeyed Entity.id) (sym (ap World.entities m.tables))
            (set_lifecycle-IsKeyed Lifecycle.merged res.0.source_entity w.entities v.keyed);
      forest = IsMerged-IsForest w source target res.0 res.1 v.forest m;
      one = IsMerged-OnePerCluster w source target res.0 res.1 v.forest m v.one;
      linked = IsMerged-IsLinked w source target res.0 res.1 v.forest m v.linked;
    }

-- A split that returns leaves a well-formed catalogue well formed.
pub split-IsWellFormed :
    (w : World) (now event : ℕ) (reason : String) (res : SplitEvent × World)
    → IsWellFormed w
    → split w now event reason ≡ ok res
    → IsWellFormed res.1
split-IsWellFormed w now event reason res v h =
    let p = split-IsSplit w now event reason res h in
    let kept = split-IsForest w now event reason res v.forest v.one h in
    record {
      keyed =
          subst (IsKeyed Entity.id) (sym p.entities)
            (set_lifecycle-IsKeyed Lifecycle.active p.row.source_entity w.entities v.keyed);
      forest = kept.0;
      one = kept.1;
      linked = λ e t step.
          subst (λ rows. IsLink rows e t) (sym p.entities)
            (IsLink-set_lifecycle Lifecycle.active p.row.source_entity e t w.entities (
              v.linked e t (
                step_before w.redirects p.row.id v.forest e t
                  (sym (ap (λ rs. redirect_of rs e) p.redirects) ∙ step))));
    }

-- In a well-formed catalogue an entity is shown to the public exactly when its canonical row is
-- public.
pub is_public-canonical :
    (w : World) (e : ℕ) (root : Entity)
    → IsWellFormed w
    → resolve w.redirects e ≡ ok root.id
    → get Entity.id root.id w.entities ≡ some root
    → is_public w e ≡ ok (is_public_row root)
is_public-canonical w e root v h there =
    is_public-root w e root v.forest (IsLinked-IsSafe w v.keyed v.linked) h there
