-- ===== src/AssetBuffer.antt =====
-- backend/substrapp/compute_tasks/asset_buffer.py, with `download` of
-- backend/substrapp/clients/organization.py: the copies of assets that the tasks of a worker share.
pub mod Adding
pub mod Genuine
pub mod Keeping
pub mod Presence
pub mod Linking
pub mod TaskDirectory
pub mod WrongChecksum
mod Examples
use substra_backend.Prelude.{
  ℕ, String, Bool, true, false, ◌&&◌, ◌==◌, Option, none, some, List, [], ◌∷◌, if◌then◌else◌,
  is_some,
}
use substra_backend.Worker.{
  Failure, no_space, file_not_found, os_error, other_error, Attempt, raised, returned,
}

-- AssetBufferDirName
pub data Folder : Type 0 where
  data_samples : Folder
  models : Folder
  openers : Folder

abbrev pub same_folder : Folder → Folder → Bool
same_folder data_samples data_samples = true
same_folder models models = true
same_folder openers openers = true
same_folder _ _ = false

-- A file with its content, or a directory with its files.
pub data Node : Type 0 where
  file : ℕ → Node
  directory : List (String × ℕ) → Node

-- What stands at a path of the buffer: a folder and the key of an asset.
abbrev pub Buffer : Type 0
Buffer = Folder → ℕ → Option Node

abbrev pub write : Folder → ℕ → Option Node → Buffer → Buffer
write folder key node b f k = if same_folder f folder && (k == key) then node else b f k

-- A row of substrapp.models.DataSample: an archive in the storage, or a path in the servermedias.
pub record DataSampleFile : Type 0 where
  pub archive : Option ℕ
  pub path : ℕ
  pub checksum : ℕ

-- orchestrator.Address of an asset, and the salt of its hash, which a model has.
pub record Remote : Type 0 where
  pub uri : ℕ
  pub checksum : ℕ
  pub salt : Option ℕ

-- What the buffer is filled from, and the third-party functions.
pub record Source : Type 0 where
  -- the table of the data samples, and the files of the servermedias
  pub data_sample : ℕ → Option DataSampleFile
  pub servermedias : ℕ → Option Node
  pub storage_in_servermedias : Bool
  -- what the extraction of an archive, and the copy of a directory, leave, and how they end
  pub uncompress : ℕ → Option Node × Attempt {0} Unit
  pub copytree : List (String × ℕ) → Option Node × Attempt {0} Unit
  -- the response to a request; with the bytes that were received, and what ended it, if it was cut off
  pub request : ℕ → Attempt (ℕ × Option Failure)
  -- checksumdir.dirhash, and hashlib.sha256 of a content and a salt
  pub dirhash : List (String × ℕ) → ℕ
  pub sha256 : ℕ → Option ℕ → ℕ
  -- the addresses of the openers and the models, which the orchestrator has
  pub opener : ℕ → Remote
  pub model : ℕ → Remote
  -- what lock_resource raises for the asset, if it does
  pub lock : Folder → ℕ → Option Failure

-- A call that works on the buffer: the buffer that it leaves, and how it ends.
abbrev pub Filling : Type 0
Filling = Buffer → Buffer × Attempt {0} Unit

-- What follows a call that ended in this way.
abbrev pub go_on : Attempt {0} Unit → Buffer → Filling → Buffer × Attempt {0} Unit
go_on (raised e) after n = (after, raised e)
go_on (returned _) after n = n after

infixl 5 ◌and_then◌
abbrev pub ◌and_then◌ : Filling → Filling → Filling
◌and_then◌ m n b = let (after, result) = m b in go_on result after n
