-- ===== src/Files.antt =====
-- What the program asks of the file system, at one time: a parameter. A path is its printed form;
-- a failed call gives the text of its `std::io::Error`. The names in a directory come in any order.
use carriers.Base.{
  Text, Bytes, Bool, false, Option, none, some, List, [], ◌∷◌, ◌++◌, Result, ok, err, io, ◌⊎◌, inl,
  inr, is_empty, rsplit_once, ◌==◌, text_eq, text_beq, if◌then◌else◌,
}

pub record Files : Type 0 where
  pub is_dir : Text → Bool
  pub is_file : Text → Bool
  pub read_dir : Text → List (Text ⊎ Text) ⊎ Text
  pub read : Text → Bytes ⊎ Text
  pub read_to_string : Text → Text ⊎ Text
  pub exists : Text → Bool

-- `Path::join` with a name.
abbrev pub join : Text → Text → Text
join dir name = dir ++ (b'/' ∷ name)

-- `Path::with_file_name`, for a path whose last part is a name.
unfoldable pub with_file_name : Text → Text → Text
unfolding rsplit_once
with_file_name path name = elim (rsplit_once b'/' path) [
  | none ↦ name
  | some (dir, _) ↦ join dir name
]

-- `file_stem` and `extension` of a name: a dot at its start does not begin an extension.
unfoldable pub split_name : Text → Text × Option Text
unfolding rsplit_once
split_name name = elim (rsplit_once b'.' name) [
  | none ↦ (name, none)
  | some (stem, extension) ↦ (if is_empty stem then (name, none) else (stem, some extension))
]

unfoldable pub has_extension : Text → Text → Bool
unfolding split_name text_beq
has_extension extension name = elim (split_name name).1 [ none ↦ false | some e ↦ e == extension ]

unfoldable pub file_stem : Text → Text
unfolding split_name
file_stem name = (split_name name).0

-- `?` on an input or output error.
abbrev pub io_result {ℓ} : {A : Type ℓ} → A ⊎ Text → Result A
io_result (inl a) = ok a
io_result (inr e) = err (io e)

-- The entries that could be read.
abbrev pub readable : List (Text ⊎ Text) → List Text
readable [] = []
readable (inl name ∷ entries) = name ∷ readable entries
readable (inr e ∷ entries) = readable entries
