-- ===== src/Node/Info/Laws.antt =====
-- What the readers of pkg/node/mount.go and pkg/node/ublk.go find in a text or a list.
use niova_block_csi.Prelude.{
  String, ◌≡◌, refl, true, List, [], ◌∷◌, ◌++◌, Option, none, some, ◌==◌, if◌then◌else◌, arith,
  Option-cases, Bool-cases, inl, inr,
}
use niova_block_csi.Prelude.Dict.{Dict, lookup, insert, lookup-insert}
use niova_block_csi.Go.Exec.{ok}
use niova_block_csi.Go.Filepath.{clean, split_at}
use niova_block_csi.Node.Host.{MountPoint, Host}
use niova_block_csi.Node.Info.{export_pair, collect, find_mount, probe_filesystem_info}

-- The value of the last line that has the key.
unfoldable pub last_value :
    (String → Option (String × String)) → String → List String → Option String
last_value pair key [] = none
last_value pair key (line ∷ lines) =
    let here : Option String = elim (pair line) [
      | none ↦ none
      | some (k, value) ↦ if k == key then some value else none
    ] in
    elim (last_value pair key lines) [ none ↦ here | some value ↦ some value ]

abbrev or_else : {A : Type 0} → Option A → Option A → Option A
or_else none b = b
or_else (some a) b = some a

pub lookup-collect :
    (pair : String → Option (String × String)) (key : String) (lines : List String)
    (info : Dict String)
    → lookup key (collect pair lines info) ≡ or_else (last_value pair key lines) (lookup key info)
unfolding collect last_value
lookup-collect pair key [] info = refl
lookup-collect pair key (line ∷ lines) info = elim (Option-cases (pair line)) [
  | inl none_ ↦ grind (arith, lookup-collect pair key lines info)
  | inr ((k, value), e) ↦
      ground
        (arith, lookup-collect pair key lines (insert k value info), lookup-insert k key value info)
]

-- The mount point that is found is the first one in the list whose path is the target.
pub find_mount-first :
    (target : String) (mounts : List MountPoint) (m : MountPoint)
    → find_mount target mounts ≡ some m
    → (before after : List MountPoint) × (mounts ≡ before ++ (m ∷ after))
      × ((clean m.path == target) ≡ true)
      × (find_mount target before ≡ none)
unfolding find_mount
find_mount-first target [] m k = ground arith
find_mount-first target (x ∷ mounts) m k = elim (Bool-cases (clean x.path == target)) [
  | inl here ↦ ([], mounts, ground arith, ground arith, refl)
  | inr apart ↦
      let (before, after, split, at, earlier) = find_mount-first target mounts m (ground arith) in
      (x ∷ before, after, ground arith, at, ground arith)
]

module _ (H : Host) where
  -- Where `blkid -o export` succeeds, probeFilesystemInfo gives each key the value of the last line that
  -- has it, of the lines that hold a sign "=", and no other key.
  pub probe_filesystem_info_lem :
      (device key : String) (h : H.State)
      → (H.run "blkid" ("-o" ∷ "export" ∷ device ∷ []) h).0.error ≡ none
      → (info : Dict String) × ((probe_filesystem_info H device h).0 ≡ ok info)
        × (lookup key info
            ≡ last_value export_pair key
                (split_at b'\n' (H.run "blkid" ("-o" ∷ "export" ∷ device ∷ []) h).0.text))
  unfolding probe_filesystem_info lookup
  probe_filesystem_info_lem device key h works =
      let lines = split_at b'\n' (H.run "blkid" ("-o" ∷ "export" ∷ device ∷ []) h).0.text in
      (
        collect export_pair lines [],
        ground arith,
        grind (arith, lookup-collect export_pair key lines []),
      )
