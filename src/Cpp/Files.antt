-- ===== src/Cpp/Files.antt =====
-- `boost::filesystem` and the file streams, a parameter. A path is its text.
use pds_progetto.Base.{ℕ, Text, Bool, List, Option, ◌∷◌, ◌≡◌, some}
use pds_progetto.Cpp.Result.{Result}
use pds_progetto.Cpp.Effect.{Effect}

pub record Files : Type 1 where
  pub State : Type 0
  -- `path::append`, `path::remove_leaf`, and iteration over the elements of a path.
  pub append : Text → Text → Text
  pub remove_leaf : Text → Text
  pub elements : Text → List Text
  -- `relative(p, base)` follows the links of the file system.
  pub relative : State → Text → Text → Result Text
  pub exists : State → Text → Result Bool
  pub is_regular_file : State → Text → Result Bool
  pub is_directory : State → Text → Result Bool
  pub last_write_time : State → Text → Result ℕ
  -- The paths that a `recursive_directory_iterator` visits.
  pub walk : State → Text → Result (List Text)
  pub create_directory : Text → Effect State Bool
  pub remove : Text → Effect State Bool
  pub remove_all : Text → Effect State ℕ
  -- The content that an input stream reads, if it can be opened.
  pub open_read : State → Text → Option (List ℕ)
  -- An output stream on the path; one that cannot be opened writes nothing and throws nothing.
  pub open_write : State → Text → List ℕ → State

-- `<<` and `>>` of a `boost::filesystem::path`: the text that is written, and the path that is read
-- from a stream with this text into an old one.
pub record PathText : Type 0 where
  pub insert : Text → Text
  pub extract : Text → Text → Text

-- A path as it is written is read back behind a space.
pub record IsReadBack (P : PathText) : Type 0 where
  pub extract-insert : (old p : Text) → P.extract old (32 ∷ P.insert p) ≡ p

-- The output stream could be opened and wrote all of the content: the path then holds it.
abbrev pub IsStored : (F : Files) → F.State → Text → List ℕ → Type 0
IsStored F files path content = F.open_read (F.open_write files path content) path ≡ some content
