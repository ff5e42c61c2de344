-- ===== src/FileCache/Climb.antt =====
-- Names that are `..` or empty lead up the tree.
use lt_kernel.Prelude.{
  ℕ, zero, suc, ◌<◌, ◌≡◌, ◌≢◌, refl, Bool, true, false, none, List, [], ◌∷◌, ◌==◌, arith, length,
  All,
}
use lt_kernel.Prelude.Result.{ok}
use lt_kernel.FileCache.{World, File, Cache, same_name}
use lt_kernel.FileCache.Open.{split_path, open_last, open_from}

-- A name without `/`.
abbrev pub IsPlain : List ℕ → Type 0
IsPlain name = All (λ b. b ≢ b'/') name

-- `../` for each `true` and `/` for each `false`, in front of a name.
abbrev pub climbing : List Bool → List ℕ → List ℕ
climbing [] name = name
climbing (true ∷ ups) name = b'.' ∷ b'.' ∷ b'/' ∷ climbing ups name
climbing (false ∷ ups) name = b'/' ∷ climbing ups name

abbrev pub ancestor : (ℕ → File) → List Bool → ℕ → ℕ
ancestor files [] dir = dir
ancestor files (up ∷ ups) dir = ancestor files ups (files dir).parent

split_path-plain : (name : List ℕ) → IsPlain name → split_path name ≡ none
unfolding split_path
split_path-plain [] h = refl
split_path-plain (b ∷ bs) h =
    let e : (b == b'/') ≡ false = ground (arith, h.0) in
    rw (e, split_path, split_path-plain bs h.1) refl

-- For a name that is not empty and has no `/`: the walk from a directory along a path of names that are
-- `..` or empty, and then this name, ends and does what the last step of the walk does for the name in
-- the ancestor of the directory as many levels up as there are such names. An empty name, of a path
-- with `//`, leads up like `..`.
pub open_from-climbs :
    (ups : List Bool) (fuel browse_fuel : ℕ) (w : World) (b : ℕ) (bs : List ℕ) (dir : ℕ) (c : Cache)
    → IsPlain (b ∷ bs)
    → length ups < fuel
    → open_from fuel browse_fuel w (climbing ups (b ∷ bs)) dir c
      ≡ ok (open_last w (ancestor c.files ups dir) (b ∷ bs) c)
unfolding open_from same_name split_path
open_from-climbs [] zero browse_fuel w b bs dir c p f = absurd (omega arith)
open_from-climbs [] (suc fuel) browse_fuel w b bs dir c p f =
    let s = split_path-plain (b ∷ bs) p in rw (s, open_from) refl
open_from-climbs (up ∷ ups) zero browse_fuel w b bs dir c p f = absurd (omega arith)
open_from-climbs (true ∷ ups) (suc fuel) browse_fuel w b bs dir c p f =
    open_from-climbs ups fuel browse_fuel w b bs (c.files dir).parent c p (omega arith)
open_from-climbs (false ∷ ups) (suc fuel) browse_fuel w b bs dir c p f =
    open_from-climbs ups fuel browse_fuel w b bs (c.files dir).parent c p (omega arith)
