-- ===== src/Addresses.antt =====
-- lua-kcp/lkcpsn.c: its data, and what it does to the heap blocks with the addresses of connections.
-- `malloc` is taken to succeed.
pub mod Fill
pub mod Laws
pub mod Print
use lua_kcp_skynet.Prelude.{
  ℕ, ◌+◌, ◌*◌, Bool, true, false, List, [], ◌∷◌, ◌++◌, map, Option, none, some, length, take, drop,
  replicate, leb, ◌==◌, if◌then◌else◌,
}
use lua_kcp_skynet.Heap.{Ptr, Heap, load, alloc, write, free}
use lua_kcp_skynet.Outcome.{Cmd, ok, pure, undefined, defined, ◌>>=◌, ◌>>◌}
use lua_kcp_skynet.Api.Lua.{Bytes, Value, LuaApi}
use lua_kcp_skynet.Api.Kcp.{KcpApi}
use lua_kcp_skynet.Machine.{Machine, load_callback, store_callback, user_of}

pub record Callback : Type 0 where
  pub handle : ℕ
  pub l : Option ℕ
  pub el : Option ℕ
  pub address : Option Ptr
  pub addresssz : ℕ

-- A block of bytes; `none` is a byte that was not written since `malloc`.
abbrev pub Block : Type 0
Block = List (Option ℕ)

-- A call of `skynet_socket_udp_sendbuffer`: the context, a userdata, the address block that it may
-- read, the socket, and the buffer's bytes.
pub record Datagram : Type 0 where
  pub ctx : Value
  pub address : Block
  pub id : ℕ
  pub buffer : Bytes

-- The rest of the state: the address blocks, `LL` (`none` for NULL), `svrsock`, and the calls of
-- `skynet_socket_udp_sendbuffer` so far, the last first.
pub record Statics (L : LuaApi) : Type 0 where
  pub addresses : Heap Block
  pub ll : Option L.Vm
  pub svrsock : ℕ
  pub sent : List Datagram

abbrev pub World : LuaApi → KcpApi → Type 0
World L K = Machine L K Callback (Statics L)

-- `memset(block, 0, n)` and `memcpy(block, bytes, length bytes)` within a block of enough bytes.
abbrev pub clear : Block → ℕ → Block
clear block n = replicate n (some 0) ++ drop n block

abbrev pub copy : Block → Bytes → Block
copy block bytes = map some bytes ++ drop (length bytes) block

-- What `print_address` prints; the text of the host is `inet_ntop`'s.
pub data Family : Type 0 where
  af_inet af_inet6 : Family

pub record Printed : Type 0 where
  pub family : Family
  pub host : Bytes
  pub port : ℕ

-- The family that a size stands for, and how many bytes its host has.
abbrev pub family_of : ℕ → Option (Family × ℕ)
family_of sz =
    if sz == 1 + 2 + 4
    then some (af_inet, 4)
    else if sz == 1 + 2 + 16
    then some (af_inet6, 16)
    else none

-- The two bytes of a port in network order.
abbrev pub ntohs : Bytes → ℕ
ntohs (hi ∷ lo ∷ _) = hi * 256 + lo
ntohs _ = 0

abbrev pub all_written : Block → Option Bytes
all_written [] = some []
all_written (none ∷ _) = none
all_written (some b ∷ bs) = elim (all_written bs) [ none ↦ none | some rest ↦ some (b ∷ rest) ]

module _ {L : LuaApi} {K : KcpApi} where
  abbrev pub on_statics : (Statics L → Statics L) → Cmd (World L K) (Unit {0})
  on_statics f w = ok tt (record w { statics = f w.statics })

  -- malloc(n), free(p), where free(NULL) does nothing, memset(p, 0, n), and memcpy(p, bytes, …).
  unfoldable pub malloc : ℕ → Cmd (World L K) Ptr
  malloc n w = ok (alloc w.statics.addresses (replicate n none)).0 (record w {
    statics = record (w.statics) { addresses = (alloc w.statics.addresses (replicate n none)).1 };
  })

  unfoldable pub free_address : Option Ptr → Cmd (World L K) (Unit {0})
  free_address none = pure tt
  free_address (some p) = do
    _ ← λ w. defined (load w.statics.addresses p) w
    on_statics (λ s. record s { addresses = free s.addresses p })

  unfoldable pub update_block : ℕ → (Block → Block) → Option Ptr → Cmd (World L K) (Unit {0})
  update_block n f none = undefined
  update_block n f (some p) = do
    block ← λ w. defined (load w.statics.addresses p) w
    if leb n (length block)
        then on_statics (λ s. record s { addresses = write s.addresses p (f block) })
        else undefined

  unfoldable pub memset_zero : Option Ptr → ℕ → Cmd (World L K) (Unit {0})
  memset_zero p n = update_block n (λ block. clear block n) p

  unfoldable pub memcpy : Option Ptr → Bytes → Cmd (World L K) (Unit {0})
  memcpy p bytes = update_block (length bytes) (λ block. copy block bytes) p

  -- What both `lkcp_send` and `lkcp_input` do with the address block: a new block if the size
  -- differs, and then the bytes. An empty address changes nothing.
  unfoldable pub resize : Ptr → Callback → ℕ → Bool → Cmd (World L K) (Unit {0})
  resize c cb sz true = pure tt
  resize c cb sz false = do
    free_address cb.address
    a ← malloc (sz + 1)
    store_callback c (record cb { address = some a; addresssz = sz })

  unfoldable pub set_address : Ptr → Bytes → Cmd (World L K) (Unit {0})
  set_address p [] = pure tt
  set_address p (b ∷ bs) = do
    c ← user_of p
    cb ← load_callback c
    resize c cb (length (b ∷ bs)) (cb.addresssz == length (b ∷ bs))
    cb' ← load_callback c
    memset_zero cb'.address (length (b ∷ bs) + 1)
    memcpy cb'.address (b ∷ bs)

  -- A new block for an address, in `lkcp_create`.
  unfoldable pub new_address : Bytes → Cmd (World L K) Ptr
  new_address bytes = do
    a ← malloc (length bytes + 1)
    memset_zero (some a) (length bytes + 1)
    memcpy (some a) bytes
    pure a

  -- n bytes from an offset; bytes past the block's end, and unwritten ones, must not be read.
  unfoldable pub read_bytes : Ptr → ℕ → ℕ → Cmd (World L K) Bytes
  read_bytes a off n = do
    block ← λ w. defined (load w.statics.addresses a) w
    if leb (off + n) (length block)
        then defined (all_written (take n (drop off block)))
        else undefined

  unfoldable pub print_host : Ptr → ℕ → Option (Family × ℕ) → Cmd (World L K) (Option Printed)
  print_host a port none = pure none
  print_host a port (some (family, n)) = do
    host ← read_bytes a 3 n
    pure (some (record { family = family; host = host; port = port }))

  -- What is printed: an address, or (`none`) that the size is wrong.
  unfoldable pub print_address : Ptr → ℕ → Cmd (World L K) (Option Printed)
  print_address a sz = do port ← read_bytes a 1 2; print_host a (ntohs port) (family_of sz)
