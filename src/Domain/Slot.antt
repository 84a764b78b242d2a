-- ===== src/Domain/Slot.antt =====
-- domain/slot.go and config/ports.go: the number of a slot, and all that is derived from it. A
-- negative Go `int` is no valid slot, as 0 is none, so a slot is a natural number.
pub mod Unique
mod Tests
use huawei_api.Base.{ℕ, ◌+◌, ◌-◌, ◌%◌, Bool, ◌&&◌, leb, if◌then◌else◌, Option, some, none}
use huawei_api.Domain.Addr.{Addr, addr_from4, Prefix}

abbrev pub max_slots : ℕ
max_slots = 150

abbrev pub subnet_octet_base : ℕ
subnet_octet_base = 100

abbrev pub route_table_base : ℕ
route_table_base = 1000

abbrev pub rule_prio_src_base : ℕ
rule_prio_src_base = 1000

abbrev pub rule_prio_uid_base : ℕ
rule_prio_uid_base = 1500

abbrev pub uid_base : ℕ
uid_base = 6100

abbrev pub socks_port_base : ℕ
socks_port_base = 21000

abbrev pub http_port_base : ℕ
http_port_base = 22000

-- Slot.Valid
abbrev pub slot_valid : ℕ → Bool
slot_valid s = leb 1 s && leb s max_slots

-- Slot.UID
unfoldable pub uid : ℕ → ℕ
uid s = uid_base + s

-- Slot.addr: the third octet is a byte, so it wraps.
slot_addr : ℕ → ℕ → Addr
slot_addr s last = addr_from4 192 168 ((subnet_octet_base + s) % 256) last

-- Slot.GatewayIP
unfoldable pub gateway_ip : ℕ → Addr
unfolding slot_addr
gateway_ip s = slot_addr s 1

-- Slot.HostIP
unfoldable pub host_ip : ℕ → Addr
unfolding slot_addr
host_ip s = slot_addr s 100

-- Slot.HostPrefix
unfoldable pub host_prefix : ℕ → Prefix
unfolding host_ip
host_prefix s = Prefix.prefix (host_ip s) 24

-- Slot.Subnet
unfoldable pub subnet : ℕ → Prefix
unfolding slot_addr
subnet s = Prefix.prefix (slot_addr s 0) 24

-- Slot.RouteTable
unfoldable pub route_table : ℕ → ℕ
route_table s = route_table_base + s

-- Slot.RulePrioSrc
unfoldable pub rule_prio_src : ℕ → ℕ
rule_prio_src s = rule_prio_src_base + s

-- Slot.RulePrioUID
unfoldable pub rule_prio_uid : ℕ → ℕ
rule_prio_uid s = rule_prio_uid_base + s

-- Slot.SocksPort
unfoldable pub socks_port : ℕ → ℕ
socks_port s = socks_port_base + s

-- Slot.HTTPPort
unfoldable pub http_port : ℕ → ℕ
http_port s = http_port_base + s

-- SlotFromUID: below the base the difference is negative in Go and 0 here, both invalid.
unfoldable pub slot_from_uid : ℕ → Option ℕ
slot_from_uid u = let s = u - uid_base in if slot_valid s then some s else none
