-- ===== src/Tc.antt =====
-- src/tc.c: traffic shaping with HTB queues on intermediate devices, as the commands it runs.
use Prim.Native.Nat.{max}
use wifi_cat.Base.{
  ℕ, ◌+◌, ◌*◌, ◌≡◌, ◌/◌, ◌<◌, List, [], ◌∷◌, ◌++◌, String, ◌^◌, ◌-◌, arith, if◌then◌else◌, ◌==◌,
}
use wifi_cat.Base.Int.{ℤ, pos, mul_int, ltb_ℤ, div_int}
use wifi_cat.Base.Text.{Text, Piece, lit, str, dec, hex, format}
use wifi_cat.Shell.{Script, execute, ◌|=◌, nothing, iptables_do_command, tc_do_command}
use wifi_cat.Conf.{Config}

-- `MTU + 40`
abbrev mtu : ℤ
mtu = pos 1540

-- `limit * 1000 / 8 / HZ`, but at least the MTU; HZ is 100.
pub burst_of : ℤ → ℤ
burst_of limit =
    let burst = div_int (div_int (mul_int limit (pos 1000)) 8) 100 in
    if ltb_ℤ burst mtu then mtu else burst

-- The arguments ` burst B cburst C mtu M` that each class command has.
burst_args : ℤ → List Piece
burst_args burst =
    lit " burst "
    ∷ dec (mul_int burst (pos 10))
    ∷ lit " cburst "
    ∷ dec burst
    ∷ lit " mtu "
    ∷ dec mtu
    ∷ []

-- `class add ... parent 1:1 classid 1:I htb rate R ceil R ... prio 1` of a client.
client_class : Text → ℤ → ℤ → Script
unfolding burst_args
client_class dev limit classid = tc_do_command (
    lit "class add dev "
    ∷ str dev
    ∷ lit " parent 1:1 classid 1:"
    ∷ dec classid
    ∷ lit " htb rate "
    ∷ dec limit
    ∷ lit "kbit ceil "
    ∷ dec limit
    ∷ lit "kbit"
    ∷ (burst_args (burst_of limit) ++ lit " prio 1" ∷ []))

-- `filter add ... handle 0xIM fw flowid 1:I`: the client's slot and the mark, in hexadecimal.
client_filter : Text → ℕ → ℕ → Script
client_filter dev slot fw_mark = tc_do_command (
    lit "filter add dev "
    ∷ str dev
    ∷ lit " protocol ip parent 1: handle 0x"
    ∷ hex slot
    ∷ hex fw_mark
    ∷ lit " fw flowid 1:"
    ∷ dec (pos slot)
    ∷ [])

pub tc_attach_client : Text → ℤ → Text → ℤ → ℕ → ℕ → Script
unfolding client_class client_filter burst_of
tc_attach_client down_dev download_limit up_dev upload_limit idx fw_mark =
    nothing
    |= client_class down_dev download_limit (pos (idx + 10))
    |= client_filter down_dev (idx + 10) fw_mark
    |= client_class up_dev upload_limit (pos (idx + 10))
    |= client_filter up_dev (idx + 10) fw_mark

pub tc_detach_client : Text → Text → ℕ → Script
tc_detach_client down_dev up_dev idx =
    nothing
    |= tc_do_command (
        lit "class del dev "
        ∷ str down_dev
        ∷ lit " parent 1: classid 1:"
        ∷ dec (pos (idx + 10))
        ∷ [])
    |= tc_do_command (
        lit "class del dev " ∷ str up_dev ∷ lit " parent 1: classid 1:" ∷ dec (pos (idx + 10)) ∷ [])

-- `tc_attach_upload_qdisc` and `tc_attach_download_qdisc`, which differ in their parameter's name.
tc_attach_qdisc : Text → ℤ → Script
unfolding burst_of burst_args
tc_attach_qdisc dev limit =
    nothing
    |= tc_do_command
        (lit "qdisc add dev " ∷ str dev ∷ lit " root handle 1: htb default 2 r2q 1700" ∷ [])
    |= tc_do_command (
        lit "class add dev "
        ∷ str dev
        ∷ lit " parent 1: classid 1:1 htb rate 100Mbps ceil 100Mbps"
        ∷ burst_args (burst_of limit))
    |= tc_do_command (
        lit "class add dev "
        ∷ str dev
        ∷ lit " parent 1:1 classid 1:2 htb rate "
        ∷ dec limit
        ∷ lit "kbit ceil "
        ∷ dec limit
        ∷ lit "kbit"
        ∷ (burst_args (burst_of limit) ++ lit " prio 1" ∷ []))

-- `imqN`
pub imq_name : ℤ → Text
imq_name n = format (lit "imq" ∷ dec n ∷ [])

ip_link : Text → String → Script
ip_link dev state = execute (format (lit "ip link set " ∷ str dev ∷ lit " " ∷ lit state ∷ []))

-- `rc` as it stands, for a sequence of `|=` that goes on from it.
abbrev from_rc : ℕ → Script
from_rc rc w = (w, rc)

-- One half of `tc_init_tc`: bring the device up; if that works, send the chain's packets to it and
-- shape it. `failed` is what becomes of `rc` where it does not.
bring_up : String → ℤ → ℤ → (ℕ → ℕ) → ℕ → Script
unfolding ip_link tc_attach_qdisc
bring_up chain imq limit failed rc w =
    if ltb_ℤ (pos 0) limit
    then (let (w', ret) = ip_link (imq_name imq) "up" w in
        if ret == 0
        then (from_rc rc
              |= iptables_do_command (
                  lit "-t mangle -A " ∷ lit chain ∷ lit " -j IMQ --todev " ∷ dec imq ∷ lit " " ∷ [])
              |= tc_attach_qdisc (imq_name imq) limit)
            w'
        else (w', failed rc))
    else (w, rc)

-- `tc_init_tc`. A download device that cannot be brought up is only logged; for the upload device the
-- status becomes -1.
pub tc_init_tc : Config → Script
unfolding bring_up
tc_init_tc config w =
    let (w', rc) = bring_up "ndsINC" config.download_imq config.download_limit (λ rc. rc) 0 w in
    bring_up "ndsOUT" config.upload_imq config.upload_limit (λ rc. 2 ^ 32 - 1) rc w'

pub tc_destroy_tc : Config → Script
unfolding ip_link
tc_destroy_tc config =
    nothing
    |= tc_do_command (lit "qdisc del dev " ∷ str (imq_name config.download_imq) ∷ lit " root" ∷ [])
    |= tc_do_command (lit "qdisc del dev " ∷ str (imq_name config.upload_imq) ∷ lit " root" ∷ [])
    |= ip_link (imq_name config.download_imq) "down"
    |= ip_link (imq_name config.upload_imq) "down"

mul_int-small : (a b : ℕ) → a * b < 2 ^ 31 → mul_int (pos a) (pos b) ≡ pos (a * b)
unfolding mul_int
mul_int-small a b h = ground arith

div_div : (n : ℕ) → n / 8 / 100 ≡ n / 800
div_div n = omega arith

-- For every limit whose product with 1000 fits an `int` the burst is the number of bytes that the limit
-- allows in a hundredth of a second, or the MTU if that is more, and ten bursts fit an `int` too.
pub burst_bounds :
    (limit : ℕ)
    → limit * 1000 < 2 ^ 31
    → (burst_of (pos limit) ≡ pos (max 1540 (limit * 1000 / 800)))
      × (mul_int (burst_of (pos limit)) (pos 10) ≡ pos (max 1540 (limit * 1000 / 800) * 10))
burst_bounds limit h =
    (exact, rw exact (mul_int-small (max 1540 (limit * 1000 / 800)) 10 (omega arith)))
  where
    exact : burst_of (pos limit) ≡ pos (max 1540 (limit * 1000 / 800))
    exact = unfold burst_of div_int in (ground (arith, mul_int-small limit 1000 h))
