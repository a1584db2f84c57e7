-- ===== src/Controller/Names.antt =====
-- Lists of vdevs: which vdev a key names after one is added or deleted, and distinct names.
use niova_block_csi.Prelude.{
  ◌≡◌, ◌≢◌, refl, sym, String, Bool, true, false, List, none, some, arith, ◌∷◌, [], ◌++◌, eq_iff,
}
use niova_block_csi.Config.Plane.{VdevConfig}
use niova_block_csi.Config.Lawful.{names, resolve, without_id}

abbrev pub NotNamed : String → List VdevConfig → Type 0
NotNamed name [] = Unit
NotNamed name (v ∷ vs) = (v.name ≢ name) × NotNamed name vs

-- No two vdevs have the same name.
abbrev pub DistinctNames : List VdevConfig → Type 0
DistinctNames [] = Unit
DistinctNames (v ∷ vs) = NotNamed v.name vs × DistinctNames vs

NotNamed-append :
    (name : String) (w : VdevConfig) (vs : List VdevConfig)
    → NotNamed name vs
    → w.name ≢ name
    → NotNamed name (vs ++ w ∷ [])
NotNamed-append name w [] h n = (n, tt)
NotNamed-append name w (v ∷ vs) h n = (h.0, NotNamed-append name w vs h.1 n)

pub DistinctNames-append :
    (w : VdevConfig) (vs : List VdevConfig)
    → NotNamed w.name vs
    → DistinctNames vs
    → DistinctNames (vs ++ w ∷ [])
DistinctNames-append w [] h d = (tt, tt)
DistinctNames-append w (v ∷ vs) h d =
    (NotNamed-append v.name w vs d.0 (λ e. h.0 (sym e)), DistinctNames-append w vs h.1 d.1)

NotNamed-without_id :
    (name id : String) (vs : List VdevConfig) → NotNamed name vs → NotNamed name (without_id id vs)
unfolding without_id
NotNamed-without_id name id [] h = tt
NotNamed-without_id name id (v ∷ vs) h = ground (arith, NotNamed-without_id name id vs h.1)

pub DistinctNames-without_id :
    (id : String) (vs : List VdevConfig) → DistinctNames vs → DistinctNames (without_id id vs)
unfolding without_id
DistinctNames-without_id id [] d = tt
DistinctNames-without_id id (v ∷ vs) d =
    ground (arith, DistinctNames-without_id id vs d.1, NotNamed-without_id v.name id vs d.0)

module _ (is_uuid : String → Bool) where
  pub resolve-none-NotNamed :
      (name : String) (vs : List VdevConfig)
      → is_uuid name ≡ false
      → resolve is_uuid name vs ≡ none
      → NotNamed name vs
  unfolding resolve names
  resolve-none-NotNamed name [] u h = tt
  resolve-none-NotNamed name (v ∷ vs) u h =
      ground (arith, eq_iff v.name name, resolve-none-NotNamed name vs u)

  -- A vdev that is added under a name that was free is found by that name.
  pub resolve-append :
      (w : VdevConfig) (vs : List VdevConfig)
      → is_uuid w.name ≡ false
      → resolve is_uuid w.name vs ≡ none
      → resolve is_uuid w.name (vs ++ w ∷ []) ≡ some w
  unfolding resolve names
  resolve-append w [] u h = ground (arith, eq_iff w.name w.name)
  resolve-append w (v ∷ vs) u h = ground (arith, resolve-append w vs u)

  pub resolve-without_id_self :
      (id : String) (vs : List VdevConfig)
      → is_uuid id ≡ true
      → resolve is_uuid id (without_id id vs) ≡ none
  unfolding resolve names without_id
  resolve-without_id_self id [] u = refl
  resolve-without_id_self id (v ∷ vs) u = ground (arith, resolve-without_id_self id vs u)

  pub resolve-without_id :
      (id key : String) (vs : List VdevConfig)
      → is_uuid key ≡ true
      → key ≢ id
      → resolve is_uuid key (without_id id vs) ≡ resolve is_uuid key vs
  unfolding resolve names without_id
  resolve-without_id id key [] u n = refl
  resolve-without_id id key (v ∷ vs) u n =
      ground (arith, resolve-without_id id key vs u n, eq_iff v.id id, eq_iff v.id key)
