-- ===== src/ViveEnv/Meta/Videos.antt =====
-- The other video directories.
use polymetis_franka_teleop.Prelude.{ℕ, ◌≡◌, ◌≢◌, refl, Option, none, some, [], ◌∷◌, String, arith}
use polymetis_franka_teleop.ViveEnv.{Language, Dirs}
use polymetis_franka_teleop.ViveEnv.Meta.{lookup_dir, write_dir, make_dir, remove_tree, finalise}

module _ (d dir : ℕ) (other : d ≢ dir) where
  pub lookup-write_dir :
      (file : Option Language) (dirs : Dirs)
      → lookup_dir d (write_dir dir file dirs) ≡ lookup_dir d dirs
  unfolding lookup_dir write_dir
  lookup-write_dir file [] = ground arith
  lookup-write_dir file ((e, old) ∷ dirs) = ground (arith, lookup-write_dir file dirs)

  pub lookup-make_dir : (dirs : Dirs) → lookup_dir d (make_dir dir dirs) ≡ lookup_dir d dirs
  unfolding lookup_dir make_dir
  lookup-make_dir [] = ground arith
  lookup-make_dir ((e, old) ∷ dirs) = ground (arith, lookup-make_dir dirs)

  pub lookup-remove_tree : (dirs : Dirs) → lookup_dir d (remove_tree dir dirs) ≡ lookup_dir d dirs
  unfolding lookup_dir remove_tree
  lookup-remove_tree [] = refl
  lookup-remove_tree ((e, old) ∷ dirs) = ground (arith, lookup-remove_tree dirs)

  pub lookup-finalise :
      (now : String) (found : Option (Option Language)) (dirs : Dirs)
      → lookup_dir d (finalise now found dir dirs) ≡ lookup_dir d dirs
  unfolding finalise
  lookup-finalise now none dirs = refl
  lookup-finalise now (some none) dirs = refl
  lookup-finalise now (some (some file)) dirs = lookup-write_dir _ dirs

pub lookup-removed : (dir : ℕ) (dirs : Dirs) → lookup_dir dir (remove_tree dir dirs) ≡ none
unfolding lookup_dir remove_tree
lookup-removed dir [] = refl
lookup-removed dir ((e, old) ∷ dirs) = ground (arith, lookup-removed dir dirs)
