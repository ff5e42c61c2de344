-- ===== src/Debug.antt =====
-- The debugger's side of the serial line: kernel/debug/ltdbgcom.c and kernel/debug/ltdbg.c. The bytes
-- that come in on COM2 are a list; a read behind its end waits for ever, which is `stuck`. Whether
-- kmalloc grants a request and what the memory that it grants holds are parameters. A use of memory
-- that was freed, or of bytes behind the end of a buffer, is a `fault`.
pub mod Commands
pub mod Wait
pub mod Packets
pub mod Session
pub mod Served
pub mod Dangling
mod Tests
use lt_kernel.Prelude.{
  ℕ, zero, suc, ◌+◌, ◌-◌, ◌*◌, ◌/◌, ◌%◌, ◌^◌, ◌<◌, Bool, true, false, ◌||◌, ◌&&◌, not, List, [],
  ◌∷◌, ◌++◌, ◌==◌, if◌then◌else◌, leb, drop,
}
use lt_kernel.Prelude.Words.{u32}
use lt_kernel.Prelude.Result.{Result, ok, fault, stuck, ◌>>=◌}
use lt_kernel.Status.{
  KeStatus, status_success, status_invalid_parameter, status_alloc_failed, failed,
}
use lt_kernel.Alloc.{Alloc, request, give_back}
use lt_kernel.Paging.{Machine}

-- `padding` is what stands behind `cs`.
pub record KeDebugContext : Type 0 where
  pub cr3 : ℕ
  pub cr2 : ℕ
  pub cr0 : ℕ
  pub gs : ℕ
  pub fs : ℕ
  pub es : ℕ
  pub ds : ℕ
  pub ss : ℕ
  pub edi : ℕ
  pub esi : ℕ
  pub ebp : ℕ
  pub esp : ℕ
  pub ebx : ℕ
  pub edx : ℕ
  pub ecx : ℕ
  pub eax : ℕ
  pub eip : ℕ
  pub cs : ℕ
  pub padding : ℕ
  pub eflags : ℕ

-- A pointer is an address, 0 for NULL, next to the bytes that it points to.
pub record KeDebugPacket : Type 0 where
  pub size : ℕ
  pub content : ℕ
  pub bytes : List ℕ

pub record KeDebugRequest : Type 0 where
  pub command : ℕ
  pub param_size : ℕ
  pub param : ℕ
  pub bytes : List ℕ

pub record KeDebugResponse : Type 0 where
  pub command : ℕ
  pub status : ℕ
  pub context : KeDebugContext
  pub data_size : ℕ
  pub data_ptr : ℕ
  pub bytes : List ℕ

-- The serial line, the heap, the memory, and the locals of the functions that handle an interrupt.
pub record Debugger : Type 0 where
  pub input : List ℕ
  pub output : List ℕ
  pub heap : Alloc
  pub machine : Machine
  pub context : KeDebugContext
  pub request : KeDebugRequest
  pub response : KeDebugResponse
  pub initialized : Bool

-- An unsigned int in memory, and a word that is read from memory.
abbrev pub u32_bytes : ℕ → List ℕ
u32_bytes n = n % 256 ∷ n / 256 % 256 ∷ n / 65536 % 256 ∷ n / 16777216 % 256 ∷ []

abbrev pub word_of : List ℕ → ℕ
word_of [] = 0
word_of (b ∷ bs) = b + 256 * word_of bs

-- The first `n` bytes of a buffer.
unfoldable pub slice : ℕ → List ℕ → Result (List ℕ)
slice zero xs = ok []
slice (suc n) [] = fault
slice (suc n) (x ∷ xs) = do r ← slice n xs; ok (x ∷ r)

-- `ReadBytes`: what is read and what is left.
unfoldable pub read_bytes : ℕ → List ℕ → Result (List ℕ × List ℕ)
read_bytes zero xs = ok ([], xs)
read_bytes (suc n) [] = stuck
read_bytes (suc n) (x ∷ xs) = do r ← read_bytes n xs; ok (x ∷ r.0, r.1)

-- `kmalloc`, which refuses a size that is not positive as an int.
unfoldable pub kmalloc_bytes : (ℕ → Bool) → ℕ → Alloc → ℕ × Alloc
kmalloc_bytes grant size a = if size == 0 || leb 0x80000000 size then (0, a) else request grant a

-- `if (p != NULL) kfree(p);`
unfoldable pub free_live : ℕ → Alloc → Result Alloc
free_live p a = if p == 0 then ok a else if a.live p then ok (give_back p a) else fault

module _ (grant : ℕ → Bool) where
  -- The part of `RecvPacket` behind the size, with the bytes that are left.
  unfoldable pub recv_content : ℕ → List ℕ → Debugger → Result (KeStatus × KeDebugPacket × Debugger)
  recv_content size left d =
      let m = kmalloc_bytes grant size d.heap in
      let no_packet : KeDebugPacket = record { size = 0; content = 0; bytes = [] } in
      elim (size == 0) [
        | true ↦ ok (status_success, no_packet, record d { input = left })
        | false ↦ elim (m.0 == 0) [
          | true ↦ ok (status_alloc_failed, no_packet, record d { input = left; heap = m.1 })
          | false ↦ do
            c ← read_bytes size left
            ok (
              status_success,
              record { size = size; content = m.0; bytes = c.0 },
              record d { input = c.1; heap = m.1 },
            )
        ]
      ]

  -- `RecvPacket` into a packet of zeros.
  unfoldable pub recv_packet : Debugger → Result (KeStatus × KeDebugPacket × Debugger)
  recv_packet d = do r ← read_bytes 4 d.input; recv_content (word_of r.0) r.1 d

  -- The part of `RecvRequest` behind the two fields: the parameters, and CleanupPacket.
  unfoldable pub recv_param : KeDebugPacket → Debugger → Result (KeStatus × Debugger)
  recv_param packet d =
      let q = d.request in
      let m = kmalloc_bytes grant q.param_size d.heap in
      elim (q.param_size == 0) [
        | true ↦ do
          heap ← free_live packet.content d.heap
          ok (status_success, record d { heap = heap })
        | false ↦ elim (m.0 == 0) [
          | true ↦ ok (
            status_alloc_failed,
            record d { heap = m.1; request = record q { param = 0; bytes = [] } },
          )
          | false ↦ do
            bytes ← slice q.param_size (drop 8 packet.bytes)
            heap ← free_live packet.content m.1
            ok (
              status_success,
              record d { heap = heap; request = record q { param = m.0; bytes = bytes } },
            )
        ]
      ]

  -- The part of `RecvRequest` behind RecvPacket; an empty packet leaves the request as it was.
  unfoldable pub read_request : KeStatus → KeDebugPacket → Debugger → Result (KeStatus × Debugger)
  read_request status packet d = elim (failed status) [
    | true ↦ ok (status, d)
    | false ↦ elim (packet.size == 0 || packet.content == 0) [
      | true ↦ ok (status_success, d)
      | false ↦ do
        command ← slice 4 packet.bytes
        size ← slice 4 (drop 4 packet.bytes)
        recv_param packet (record d {
          request = record d.request { command = word_of command; param_size = word_of size };
        })
    ]
  ]

  unfoldable pub recv_request : Debugger → Result (KeStatus × Debugger)
  recv_request d = do p ← recv_packet d; read_request p.0 p.1 p.2

-- `SendPacket`
unfoldable pub send_packet : KeDebugPacket → Debugger → Result (KeStatus × Debugger)
send_packet packet d = elim (packet.content == 0 || packet.size == 0) [
  | true ↦ ok (status_invalid_parameter, d)
  | false ↦ do
    bytes ← slice packet.size packet.bytes
    ok (status_success, record d { output = d.output ++ (u32_bytes packet.size ++ bytes) })
]

-- `sizeof(KeDebugResponseHeader)`, and the header in memory
abbrev pub response_header_size : ℕ
response_header_size = 88

abbrev pub context_bytes : KeDebugContext → List ℕ
context_bytes c =
    u32_bytes c.cr3
    ++ (u32_bytes c.cr2
        ++ (u32_bytes c.cr0
            ++ (u32_bytes c.gs
                ++ (u32_bytes c.fs
                    ++ (u32_bytes c.es
                        ++ (u32_bytes c.ds
                            ++ (u32_bytes c.ss
                                ++ (u32_bytes c.edi
                                    ++ (u32_bytes c.esi
                                        ++ (u32_bytes c.ebp
                                            ++ (u32_bytes c.esp
                                                ++ (u32_bytes c.ebx
                                                    ++ (u32_bytes c.edx
                                                        ++ (u32_bytes c.ecx
                                                            ++ (u32_bytes c.eax
                                                            ++ (u32_bytes c.eip
                                                            ++ (u32_bytes
                                                            (c.cs % 65536 + 65536 * c.padding)
                                                            ++ u32_bytes c.eflags)))))))))))))))))

abbrev pub header_bytes : KeDebugResponse → List ℕ
header_bytes r =
    u32_bytes r.command
    ++ (u32_bytes r.status ++ (context_bytes r.context ++ u32_bytes r.data_size))

-- The data of a response: nothing is read of it if its size is 0.
unfoldable pub data_bytes : KeDebugResponse → Alloc → Result (List ℕ)
data_bytes r a = elim (r.data_size == 0) [
  | true ↦ ok []
  | false ↦ if a.live r.data_ptr then slice r.data_size r.bytes else fault
]

-- `SendResponse`; the buffer of the packet is not freed.
unfoldable pub send_response : (ℕ → Bool) → Debugger → Result (KeStatus × Debugger)
send_response grant d =
    let r = d.response in
    let size = u32 (response_header_size + r.data_size) in
    let m = kmalloc_bytes grant size d.heap in
    elim (not (r.data_size == 0) && (r.data_ptr == 0)) [
      | true ↦ ok (status_invalid_parameter, d)
      | false ↦ elim (m.0 == 0) [
        | true ↦ ok (status_alloc_failed, record d { heap = m.1 })
        | false ↦ do
          bytes ← data_bytes r d.heap
          send_packet (record { size = size; content = m.0; bytes = header_bytes r ++ bytes })
              (record d { heap = m.1 })
      ]
    ]
