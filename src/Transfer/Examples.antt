-- ===== src/Transfer/Examples.antt =====
-- A transfer of a small tree, and one that is given up.
use file_hop_z.Base.{ℕ, ◌≡◌, refl, true, List, [], ◌∷◌, ◌++◌, arith}
use file_hop_z.Base.Bytes.{Bytes, codes}
use file_hop_z.Base.Dict.{lookup, insert}
use file_hop_z.Errors.{Expected, ok, ErrorCode, make_error_code, success}
use file_hop_z.FilePath.{
  parts, pieces, collapse, check_parts, is_forbidden_path_part, validate_relative_path,
}
use file_hop_z.Disk.{Nodes, Device, overwrite, find, same_name, same_location, strip}
use file_hop_z.Disk
use file_hop_z.Disk.Calls
use file_hop_z.Disk.Calls.{open_truncated}
use file_hop_z.Builder.{file_builder, try_names, create_file, open_file, write, stream_write}
use file_hop_z.Builder.Commits.{builder_operations}
use file_hop_z.Builder.Staging.{IsReliable, child, staged}
use file_hop_z.Builder.Commit.Steps.{begun}
use file_hop_z.Builder.Commit.Output.{IsOutput}
use file_hop_z.Ftp.{
  set_payload, PacketHeader, confirm, as_bytes, byte_type, read_header, header_bytes, read_packet,
}
use file_hop_z.Progress.{Progress}
use file_hop_z.Receiver.{
  Receiver, closes, gives_up, transfer_turn, take_packet, handle_packet, handle_type, handle_data,
  start_transfer,
}
use file_hop_z.Receiver.Turns.{chunks_of}
use file_hop_z.Sender.{
  Entry, directory, regular, symlink, create_file_packet, chunk_packet, announce_packet,
  bytes_to_send, send_entries,
}
use file_hop_z.Transfer.Handled.{receiving}
use file_hop_z.Transfer.Entries.{placed, IsTree}
use file_hop_z.Transfer.Session.{new_receiver, session_copies}
use file_hop_z.Confirmation.{read_answer, confirm_transfer}
use file_hop_z.Transfer.Harmless.{start_transfer_restores}

abbrev pub willing : Device
willing = record {
  creation = λ l. success;
  taken = λ l n. n;
  flushed = λ l. true;
  removal = λ l. success;
}

pub willing-IsReliable : IsReliable willing
willing-IsReliable = record {
  permits = λ l. refl;
  takes = λ l n. omega arith;
  flushes = λ l. refl;
  removes = λ l. refl;
}

abbrev pub output : List Bytes
output = codes "o" ∷ []

-- A file stands in the output directory already.
abbrev pub disk : Nodes
disk = (output, Disk.directory) ∷ ((output ++ (codes "k" ∷ []), Disk.regular (9 ∷ [])) ∷ [])

abbrev pub name : ℕ → Bytes
name attempt = codes "t" ++ (attempt ∷ [])

abbrev pub staging : List Bytes
staging = child output (name 0)

pub disk-IsOutput : IsOutput output (name 0) disk
unfolding find same_name same_location strip
disk-IsOutput = record {
  chain = ((refl, refl), refl, tt);
  ordinary = (refl, refl);
  apart = (refl, (refl, tt));
}

-- A directory, a file in it, and a link to the file.
abbrev pub entries : List Entry
entries =
    directory (codes "d")
    ∷ (regular (codes "d/f") (1 ∷ 2 ∷ 3 ∷ []) ∷ (symlink (codes "l") (codes "d/f") ∷ []))

pub staged-IsTree : IsTree staging (begun staging disk) entries
unfolding find same_name same_location parts pieces collapse check_parts is_forbidden_path_part
    validate_relative_path
staged-IsTree = (
  record {
    sendable = ground arith;
    dir = codes "o" ∷ name 0 ∷ [];
    name = codes "d";
    at = record { accepted = refl; place = refl };
    free = record {
      chain = ((refl, refl), refl, ((refl, refl), refl, tt));
      ordinary = (refl, refl);
      free = refl;
    };
  },
  (
    record {
      sendable = ground arith;
      dir = codes "o" ∷ name 0 ∷ codes "d" ∷ [];
      name = codes "f";
      at = record { accepted = refl; place = refl };
      free = record {
        chain = ((refl, refl), refl, ((refl, refl), refl, ((refl, refl), refl, tt)));
        ordinary = (refl, refl);
        free = refl;
      };
    },
    (
      record {
        sendable = (ground arith, refl);
        dir = codes "o" ∷ name 0 ∷ [];
        name = codes "l";
        at = record { accepted = refl; place = refl };
        free = record {
          chain = ((refl, refl), refl, ((refl, refl), refl, tt));
          ordinary = (refl, refl);
          free = refl;
        };
      },
      tt,
    ),
  ),
)

pub final-IsTree : IsTree output disk entries
unfolding find same_name same_location parts pieces collapse check_parts is_forbidden_path_part
    validate_relative_path
final-IsTree = (
  record {
    sendable = ground arith;
    dir = codes "o" ∷ [];
    name = codes "d";
    at = record { accepted = refl; place = refl };
    free = record { chain = ((refl, refl), refl, tt); ordinary = (refl, refl); free = refl };
  },
  (
    record {
      sendable = ground arith;
      dir = codes "o" ∷ codes "d" ∷ [];
      name = codes "f";
      at = record { accepted = refl; place = refl };
      free = record {
        chain = ((refl, refl), refl, ((refl, refl), refl, tt));
        ordinary = (refl, refl);
        free = refl;
      };
    },
    (
      record {
        sendable = (ground arith, refl);
        dir = codes "o" ∷ [];
        name = codes "l";
        at = record { accepted = refl; place = refl };
        free = record { chain = ((refl, refl), refl, tt); ordinary = (refl, refl); free = refl };
      },
      tt,
    ),
  ),
)

abbrev no_progress : Progress
no_progress = record { bytes_to_transfer = 3; bytes_transferred = 0; last_progress = 0 }

abbrev pub no_header : PacketHeader
no_header = record { type = confirm; flags = 0; size = 0; file_id = 0 }

-- The user enters an empty line, and then the letter y.
abbrev pub lines : List Bytes
lines = [] ∷ ((121 ∷ []) ∷ [])

session_copies_example :
    (r : Receiver (builder_operations willing)) × (start_transfer
        (builder_operations willing)
        (chunks_of [] (send_entries no_header [] entries 0).0)
        (confirm_transfer
          (builder_operations willing)
          []
          []
          (ok (as_bytes (announce_packet [] (bytes_to_send entries 0))))
          lines
          (λ bytes. success)
          (new_receiver willing output name disk)).0
      ≡ (r, closes))
    × (r.file_builder ≡ staged output staging [] (disk ++ placed output entries))
unfolding strip same_name parts pieces collapse read_answer
session_copies_example =
    session_copies willing willing-IsReliable output name disk [] [] [] no_header lines entries
      disk-IsOutput staged-IsTree final-IsTree (refl, (refl, (refl, tt))) (omega arith) refl

-- A device that takes two bytes of a write.
abbrev full : Device
full = record willing { taken = λ l n. 2 }

-- The sender makes a file and writes three bytes to it.
abbrev stray : List (Bytes × Expected Bytes)
stray =
    ([], ok (as_bytes (create_file_packet no_header 5 [] (codes "d/f"))))
    ∷ (([], ok (as_bytes (chunk_packet 5 [] (1 ∷ 2 ∷ 3 ∷ [])))) ∷ [])

stray_gives_up :
    (start_transfer
      (builder_operations full)
      stray
      (receiving (builder_operations full) 4 no_progress (file_builder full name output disk))).1
    ≡ gives_up (make_error_code ErrorCode.file_write_failed)
unfolding as_bytes read_packet read_header header_bytes byte_type set_payload start_transfer
    transfer_turn take_packet handle_packet handle_type handle_data create_file open_file write
    stream_write lookup insert file_builder try_names Calls.create_directory Calls.make_directories
    open_truncated Disk.walk Disk.walk_names find same_name same_location Disk.insert
    make_error_code parts pieces collapse check_parts is_forbidden_path_part validate_relative_path
    overwrite
stray_gives_up = refl

start_transfer_restores_example :
    (start_transfer (builder_operations full) stray (
      receiving
        (builder_operations full)
        4
        no_progress
        (file_builder full name output disk))).0.file_builder.nodes
    ≡ disk
unfolding as_bytes read_packet read_header header_bytes byte_type set_payload
start_transfer_restores_example =
    start_transfer_restores full output name disk stray 4 no_progress
      (make_error_code ErrorCode.file_write_failed) disk-IsOutput refl refl refl stray_gives_up
