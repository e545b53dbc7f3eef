-- ===== src/Kernel/Hd.antt =====
-- kernel/blk_drv/hd.c: the driver of the hard disk, from the requests of Kernel/Block to the ports
-- of the controller. Messages and delays are left out.
pub mod Geometry
use linux.Base.{
  ℕ, zero, suc, ◌+◌, ◌-◌, ◌*◌, ◌/◌, ◌%◌, ◌^◌, ◌==◌, ltb, leb, not, ◌&&◌, ◌||◌, if◌then◌else◌, Bool,
  true, false, update, bit_and, bit_or, List, [], ◌∷◌, ◌++◌, Outcome, returns, panics, hangs, ◌>>=◌,
}
use linux.Base.Int.{ℤ, pos, pos_part}
use linux.Base.Loops.{for_up}
use linux.Fs.Buffer.{BufferHead}
use linux.Kernel.Block.{Request, Blocks, with_request, with_bh, major_of, end_request}

-- `struct hd_i_struct`
pub record HdInfo : Type 0 where
  pub head : ℕ
  pub sect : ℕ
  pub cyl : ℕ
  pub wpcom : ℕ
  pub lzone : ℕ
  pub ctl : ℕ

-- `struct hd_struct`: a partition, or a whole disk.
pub record HdStruct : Type 0 where
  pub start_sect : ℕ
  pub nr_sects : ℕ

-- The functions that `do_hd` points to.
pub data Handler : Type 0 where
  no_handler read_intr_handler write_intr_handler recal_intr_handler : Handler

-- What the driver sends: a byte to a port, or the 512 bytes of a sector.
pub data Sent : Type 0 where
  byte_to : (value port : ℕ) → Sent
  sector_out : (ℕ → ℕ) → Sent

pub record HardDisk : Type 0 where
  pub blocks : Blocks
  pub hd_info : ℕ → HdInfo
  pub nr_hd : ℕ
  pub hd : ℕ → HdStruct
  pub recalibrate : Bool
  pub reset : Bool
  pub do_hd : Handler
  -- all that has been sent to the controller, in order
  pub sent : List Sent

-- The controller: what a read of a port gives after what has been sent and `n` reads before in the
-- same call, and the bytes of a sector that is read.
pub record Controller : Type 0 where
  pub inb : List Sent → (n port : ℕ) → ℕ
  pub sector_in : List Sent → ℕ → ℕ

abbrev pub hd_major : ℕ
hd_major = 3

abbrev pub max_errors : ℕ
max_errors = 7

abbrev pub hd_data : ℕ
hd_data = 0x1f0

abbrev pub hd_status : ℕ
hd_status = 0x1f7

abbrev pub hd_cmd : ℕ
hd_cmd = 0x3f6

abbrev pub win_restore : ℕ
win_restore = 0x10

abbrev pub win_read : ℕ
win_read = 0x20

abbrev pub win_write : ℕ
win_write = 0x30

abbrev pub win_specify : ℕ
win_specify = 0x91

-- `CURRENT` and `*CURRENT`
abbrev pub current_request_of : HardDisk → ℕ
current_request_of s = s.blocks.current_request hd_major

abbrev pub current_request : HardDisk → Request
current_request s = s.blocks.request (current_request_of s)

abbrev pub on_current : (Request → Request) → HardDisk → HardDisk
on_current f s = record s { blocks = with_request (current_request_of s) f s.blocks }

-- `end_request`
abbrev pub end_current : (uptodate : Bool) → HardDisk → HardDisk
end_current uptodate s = record s { blocks = end_request hd_major uptodate s.blocks }

abbrev pub out : (value port : ℕ) → HardDisk → HardDisk
out value port s = record s { sent = s.sent ++ (byte_to (value % 2 ^ 8) port ∷ []) }

-- The loop of `controller_ready`, with its number of tries; the result is not 0 if it is ready.
unfoldable pub tries_left : Controller → ℕ → (n : ℕ) → HardDisk → ℕ
tries_left k zero n s = 0
tries_left k (suc retries) n s =
    let rest = tries_left k retries (n + 1) s in
    if retries == 0
    then 0
    else if bit_and (k.inb s.sent n hd_status) 0x80 == 0
    then retries
    else rest

abbrev pub controller_ready : Controller → HardDisk → Bool
controller_ready k s = not (tries_left k 100000 0 s == 0)

-- The status is good: ready, and none of busy, write error and error. The result of the source is 0
-- for this.
abbrev pub result_ok : Controller → HardDisk → Bool
result_ok k s = bit_and (k.inb s.sent 0 hd_status) 0xf1 == 0x50

-- The ports are those from `HD_DATA + 1` on.
unfoldable pub hd_out :
    Controller
    → (drive nsect sect head cyl cmd : ℕ) → (intr : Handler) → HardDisk
    → Outcome HardDisk
unfolding tries_left
hd_out k drive nsect sect head cyl cmd intr s =
    let i = s.hd_info drive in
    let s₁ = out i.ctl hd_cmd (record s { do_hd = intr }) in
    let s₂ = out nsect (hd_data + 2) (out (i.wpcom / 4) (hd_data + 1) s₁) in
    let s₃ = out (cyl / 2 ^ 8) (hd_data + 5) (out cyl (hd_data + 4) (out sect (hd_data + 3) s₂)) in
    let select = bit_or (bit_or 0xa0 (drive * 16)) head in
    if ltb 1 drive || ltb 15 head
    then panics
    else if not (controller_ready k s)
    then panics
    else returns (out cmd (hd_data + 7) (out select (hd_data + 6) s₃))

-- `drive_busy` only decides a message.
abbrev pub reset_controller : HardDisk → HardDisk
reset_controller s = out (bit_and (s.hd_info 0).ctl 0x0f) hd_cmd (out 4 hd_cmd s)

unfoldable pub reset_hd : Controller → (nr : ℕ) → HardDisk → Outcome HardDisk
unfolding hd_out
reset_hd k nr s =
    let i = s.hd_info nr in
    hd_out k nr i.sect i.sect (i.head + 2 ^ 32 - 1) i.cyl win_specify recal_intr_handler
      (reset_controller s)

-- The second test looks at the request that is the first one then, through NULL if there is none.
unfoldable pub bad_rw_intr : HardDisk → HardDisk
unfolding end_request
bad_rw_intr s =
    let s₁ = on_current (λ r. record r { errors = r.errors + 1 }) s in
    let s₂ = if leb max_errors (current_request s₁).errors then end_current false s₁ else s₁ in
    if ltb (max_errors / 2) (current_request s₂).errors then record s₂ { reset = true } else s₂

-- Where a sector lies: `sec`, `head` and `cyl` of `do_hd_request`.
unfoldable pub sector_number : HdInfo → (block : ℕ) → ℕ
sector_number i block = block % i.sect + 1

unfoldable pub head_number : HdInfo → (block : ℕ) → ℕ
head_number i block = block / i.sect % i.head

unfoldable pub cylinder_number : HdInfo → (block : ℕ) → ℕ
cylinder_number i block = block / i.sect / i.head

-- The bytes that `port_write` sends: 512 from the place that the request has got to.
abbrev pub send_sector : HardDisk → HardDisk
send_sector s =
    let r = current_request s in
    let bytes = λ (i : ℕ). (s.blocks.cache.head r.bh).b_data (r.buffer + i) in
    record s { sent = s.sent ++ (sector_out bytes ∷ []) }

-- The loop of 3000 tries for `DRQ_STAT`
unfoldable pub data_requested : Controller → ℕ → (n : ℕ) → HardDisk → Bool
data_requested k zero n s = false
data_requested k (suc tries) n s =
    let rest = data_requested k tries (n + 1) s in
    if bit_and (k.inb s.sent n hd_status) 8 == 0 then rest else true

-- The command for the request, of a partition that has been checked. `again` is `goto repeat`.
unfoldable pub start_transfer :
    Controller → (again : HardDisk → Outcome HardDisk) → HardDisk → Outcome HardDisk
unfolding hd_out reset_hd bad_rw_intr sector_number head_number cylinder_number data_requested
start_transfer k again s =
    let r = current_request s in
    let minor = pos_part r.dev % 256 in
    let drive = minor / 5 in
    let i = s.hd_info drive in
    let block = (r.sector + (s.hd minor).start_sect) % 2 ^ 32 in
    let command =
      hd_out k drive r.nr_sectors (sector_number i block) (head_number i block)
        (cylinder_number i block) in
    if s.reset
    then reset_hd k drive (record s { reset = false; recalibrate = true })
    else if s.recalibrate
    then hd_out k drive i.sect 0 0 0 win_restore recal_intr_handler
        (record s { recalibrate = false })
    else if r.cmd == 1
    then (command win_write write_intr_handler s >>= λ s₁.
        if data_requested k 3000 0 s₁ then returns (send_sector s₁) else again (bad_rw_intr s₁))
    else if r.cmd == 0
    then command win_read read_intr_handler s
    else panics

-- The partition holds the two sectors of a block.
abbrev pub in_partition : HardDisk → Bool
in_partition s =
    let r = current_request s in
    let minor = pos_part r.dev % 256 in
    ltb minor (5 * s.nr_hd) && leb ((r.sector + 2) % 2 ^ 32) (s.hd minor).nr_sects

-- `repeat:` on fuel; each repetition has ended a request or counted an error of one.
unfoldable pub do_hd_request : Controller → ℕ → HardDisk → Outcome HardDisk
unfolding end_request start_transfer
do_hd_request k zero s = hangs
do_hd_request k (suc fuel) s =
    let again = λ (s : HardDisk). do_hd_request k fuel s in
    let r = current_request s in
    if current_request_of s == 0
    then returns s
    else if not (major_of (pos_part r.dev) == hd_major)
    then panics
    else if not (r.bh == 0) && not (s.blocks.cache.head r.bh).b_lock
    then panics
    else if not (in_partition s)
    then again (end_current false s)
    else start_transfer k again s

-- The next sector of the request.
abbrev pub next_sector : Request → Request
next_sector r = record r { sector = (r.sector + 1) % 2 ^ 32; buffer = r.buffer + 512 }

abbrev pub sector_done : Request → Request
sector_done r = record r { nr_sectors = (r.nr_sectors + (2 ^ 32 - 1)) % 2 ^ 32 }

-- `port_read`: the sector goes to the buffer.
abbrev pub receive_sector : Controller → HardDisk → HardDisk
receive_sector k s =
    let r = current_request s in
    let fill = λ (b : BufferHead). record b {
      b_data = λ a.
          if leb r.buffer a && ltb a (r.buffer + 512)
          then k.sector_in s.sent (a - r.buffer)
          else b.b_data a;
    } in
    record s { blocks = with_bh r.bh fill s.blocks }

unfoldable pub read_intr : Controller → ℕ → HardDisk → Outcome HardDisk
unfolding bad_rw_intr end_request do_hd_request
read_intr k fuel s =
    let s₁ =
      on_current (λ r. sector_done (next_sector (record r { errors = 0 }))) (receive_sector k s) in
    if not (result_ok k s)
    then do_hd_request k fuel (bad_rw_intr s)
    else if not ((current_request s₁).nr_sectors == 0)
    then returns (record s₁ { do_hd = read_intr_handler })
    else do_hd_request k fuel (end_current true s₁)

unfoldable pub write_intr : Controller → ℕ → HardDisk → Outcome HardDisk
unfolding bad_rw_intr end_request do_hd_request
write_intr k fuel s =
    let s₁ = on_current sector_done s in
    let s₂ = record (on_current next_sector s₁) { do_hd = write_intr_handler } in
    if not (result_ok k s)
    then do_hd_request k fuel (bad_rw_intr s)
    else if not ((current_request s₁).nr_sectors == 0)
    then returns (send_sector s₂)
    else do_hd_request k fuel (end_current true s₁)

unfoldable pub recal_intr : Controller → ℕ → HardDisk → Outcome HardDisk
unfolding bad_rw_intr do_hd_request
recal_intr k fuel s = do_hd_request k fuel (if result_ok k s then s else bad_rw_intr s)
