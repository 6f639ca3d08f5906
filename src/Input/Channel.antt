-- ===== src/Input/Channel.antt =====
-- src/input.c: reading from the SSH channel. The channel is the list of the bytes and time-outs that its
-- reads meet; behind the last of them it is at its end.
use tnt.Base.{ltb, if◌then◌else◌, ℕ, zero, suc, Option, none, some, List, [], ◌∷◌, Bytes, ◌<◌, All}

-- A byte, or no byte within the time of a read.
pub data Read : Type 0 where
  byte : ℕ → Read
  timeout : Read

abbrev pub Channel : Type 0
Channel = List Read

-- The reads of bytes that come in time.
abbrev pub sent : Bytes → Channel
sent [] = []
sent (b ∷ bytes) = byte b ∷ sent bytes

-- A read of one byte
abbrev pub read_byte : Channel → Option ℕ × Channel
read_byte [] = (none, [])
read_byte (timeout ∷ c) = (none, c)
read_byte (byte b ∷ c) = (some b, c)

-- `read_channel_exact`
abbrev pub read_channel_exact : ℕ → Channel → Bytes × Channel
read_channel_exact zero c = ([], c)
read_channel_exact (suc n) [] = ([], [])
read_channel_exact (suc n) (timeout ∷ c) = ([], c)
read_channel_exact (suc n) (byte b ∷ c) =
    let (bytes, c') = read_channel_exact n c in (b ∷ bytes, c')

-- One read of at most so many bytes: `ssh_channel_read_timeout` returns with fewer where no more have
-- arrived yet; `available` is how many those are.
abbrev pub read_once : (Channel → ℕ) → ℕ → Channel → Bytes × Channel
read_once available n c = read_channel_exact (if ltb (available c) n then available c else n) c

-- Every byte on the channel is one.
abbrev pub IsReadByte : Read → Type 0
IsReadByte (byte b) = b < 256
IsReadByte timeout = Unit {0}

pub read-IsByte :
    (n : ℕ) (c : Channel)
    → All IsReadByte c
    → let (bytes, c') = read_channel_exact n c in All (λ b. b < 256) bytes × All IsReadByte c'
read-IsByte zero c h = (tt, h)
read-IsByte (suc n) [] h = (tt, tt)
read-IsByte (suc n) (timeout ∷ c) h = (tt, h.1)
read-IsByte (suc n) (byte b ∷ c) h = let (bytes, rest) = read-IsByte n c h.1 in ((h.0, bytes), rest)

pub read_once-IsByte :
    (available : Channel → ℕ) (n : ℕ) (c : Channel)
    → All IsReadByte c
    → let (bytes, c') = read_once available n c in All (λ b. b < 256) bytes × All IsReadByte c'
read_once-IsByte available n c h = read-IsByte (if ltb (available c) n then available c else n) c h
