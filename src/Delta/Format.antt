-- ===== src/Delta/Format.antt =====
-- The settings and the commands of include/faabric/util/delta.h, and parts of buffers.
use faabric.Prelude.{ℕ, Bool, List, [], ◌∷◌, ◌==◌, if◌then◌else◌, take, drop}
use faabric.Prelude.Int.{ℤ}
use faabric.Delta.Bytes.{bit_xor}

pub record DeltaSettings : Type 0 where
  pub use_pages : Bool
  pub page_size : ℕ
  pub xor_with_old : Bool
  pub use_zstd : Bool
  pub zstd_level : ℤ

abbrev pub delta_protocol_version : ℕ
delta_protocol_version = 1

pub data DeltaCommand : Type 0 where
  total_size zstd_compressed_commands delta_overwrite delta_xor end unknown : DeltaCommand

-- The byte of a command.
abbrev pub code : DeltaCommand → ℕ
code total_size = 0
code zstd_compressed_commands = 1
code delta_overwrite = 2
code delta_xor = 3
code end = 254
code unknown = 255

abbrev pub command_of : ℕ → DeltaCommand
command_of cmd =
    if cmd == 0
    then total_size
    else if cmd == 1
    then zstd_compressed_commands
    else if cmd == 2
    then delta_overwrite
    else if cmd == 3
    then delta_xor
    else if cmd == 254
    then end
    else unknown

-- The bytes from `start` on, `n` of them.
abbrev pub region : List ℕ → ℕ → ℕ → List ℕ
region buffer start n = take n (drop start buffer)

-- `std::transform` with `std::bit_xor`.
unfoldable pub xor_all : List ℕ → List ℕ → List ℕ
xor_all [] ys = []
xor_all (x ∷ xs) [] = []
xor_all (x ∷ xs) (y ∷ ys) = bit_xor x y ∷ xor_all xs ys
