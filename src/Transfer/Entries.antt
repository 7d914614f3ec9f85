-- ===== src/Transfer/Entries.antt =====
-- Entries of the walk of src/utils/file_walker.cpp as nodes below a directory, and the order that they come in.
use file_hop_z.Base.{◌+◌, ◌≤◌, ◌≡◌, false, List, [], ◌∷◌, ◌++◌, length}
use file_hop_z.Base.Bytes.{Bytes}
use file_hop_z.FilePath.{parts, is_empty_path}
use file_hop_z.Disk.{Node, Location, Nodes, Device, find}
use file_hop_z.Disk
use file_hop_z.Builder.Staging.{IsFree, IsStagedAs}
use file_hop_z.Ftp.{packet_size}
use file_hop_z.Sender.{Entry, directory, regular, unreadable, symlink, unsupported}

abbrev pub entry_path : Entry → Bytes
entry_path (directory path) = path
entry_path (regular path content) = path
entry_path (unreadable path content) = path
entry_path (symlink path target) = path
entry_path (unsupported path) = path

-- What an entry is in the tree.
abbrev pub entry_node : Entry → Node
entry_node (directory path) = Disk.directory
entry_node (regular path content) = Disk.regular content
entry_node (unreadable path content) = Disk.regular content
entry_node (symlink path target) = Disk.link target
entry_node (unsupported path) = Disk.regular []

-- An entry that a packet can name.
abbrev pub IsSendable : Entry → Type 0
IsSendable (directory path) = length path ≤ packet_size
IsSendable (regular path content) = length path ≤ packet_size
IsSendable (unreadable path content) = ⊥
IsSendable (symlink path target) =
    (2 + length path + length target ≤ packet_size) × (is_empty_path target ≡ false)
IsSendable (unsupported path) = ⊥

-- An entry at a free name in a directory that is there already.
pub record IsEntry (base : List Bytes) (ns : Nodes) (e : Entry) : Type 0 where
  pub sendable : IsSendable e
  pub dir : List Bytes
  pub name : Bytes
  pub at : IsStagedAs base (entry_path e) dir name
  pub free : IsFree ns dir name

-- The entries below a directory, as nodes.
abbrev pub placed : List Bytes → List Entry → Nodes
placed base [] = []
placed base (e ∷ es) = (base ++ parts (entry_path e), entry_node e) ∷ placed base es

-- Entries in the order of a walk: each stands at a free name in a directory that was there before.
abbrev pub IsTree : List Bytes → Nodes → List Entry → Type 0
IsTree base ns [] = Unit
IsTree base ns (e ∷ es) =
    IsEntry base ns e × IsTree base (ns ++ ((base ++ parts (entry_path e), entry_node e) ∷ [])) es
