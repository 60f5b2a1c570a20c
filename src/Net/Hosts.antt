-- ===== src/Net/Hosts.antt =====
-- breUtils/net/Finder.hpp: `HostInfo`, and `Finder` with its own address, which the sending thread changes,
-- and the table of hosts that the receiving thread keeps. What is printed is left out.
pub mod Table
mod Tests
use bre_utils.Prelude.{
  ℕ, Bool, true, false, not, ◌||◌, Option, none, some, List, [], ◌∷◌, ◌++◌, Bytes, codes, equal,
  find_key, put, erase, ◌==◌, if◌then◌else◌,
}

-- `state` is "0" for a host that joins and "1" for one that leaves.
pub record HostInfo : Type 0 where
  pub state : Bytes
  pub ip : Bytes
  pub name : Bytes
  pub mac : Bytes

unfoldable pub to_string : HostInfo → Bytes
to_string h = h.state ++ (codes "," ++ (h.ip ++ (codes "," ++ (h.name ++ (codes "," ++ h.mac)))))

abbrev pub first_onto : ℕ → List Bytes → List Bytes
first_onto c [] = (c ∷ []) ∷ []
first_onto c (piece ∷ pieces) = (c ∷ piece) ∷ pieces

-- `StringSplit` with a separator of one character, the only use of it.
unfoldable pub string_split : Bytes → ℕ → List Bytes
string_split [] separator = [] ∷ []
string_split (c ∷ cs) separator =
    let rest = string_split cs separator in if c == separator then [] ∷ rest else first_onto c rest

abbrev pub is_empty : Bytes → Bool
is_empty [] = true
is_empty (c ∷ cs) = false

-- `Parse` of the pieces.
unfoldable pub host_of : List Bytes → Option HostInfo
host_of (state ∷ ip ∷ name ∷ mac ∷ []) =
    if not (equal state (codes "0") || equal state (codes "1")) || is_empty ip
    then none
    else some (record { state = state; ip = ip; name = name; mac = mac })
host_of _ = none

unfoldable pub parse_host : Bytes → Option HostInfo
unfolding host_of string_split
parse_host str = host_of (string_split str b',')

-- `_hosts`, by address.
abbrev pub Hosts : Type 0
Hosts = List (Bytes × HostInfo)

unfoldable pub init_self : HostInfo
init_self = record {
  state = codes "0";
  ip = codes "127.0.0.1";
  name = codes "test";
  mac = codes "00:00:00:00:00:00";
}

abbrev pub keep : Hosts → HostInfo → Option HostInfo → Hosts
keep hosts h none = put hosts (h.ip) h
keep hosts h (some old) = hosts

-- A host that leaves is erased; one that joins is kept if its address is new.
unfoldable pub update : HostInfo → Hosts → Hosts
unfolding erase find_key put
update h hosts =
    if equal (h.state) (codes "1") then erase hosts (h.ip) else keep hosts h (find_key hosts (h.ip))

unfoldable pub on_host : HostInfo → Option HostInfo → Hosts → Hosts × Bool
unfolding update
on_host self none hosts = (hosts, false)
on_host self (some h) hosts =
    if equal (h.ip) (self.ip) then (hosts, false) else (update h hosts, true)

unfoldable pub parse_message : HostInfo → Bytes → Hosts → Hosts × Bool
unfolding on_host parse_host
parse_message self message hosts = on_host self (parse_host message) hosts

-- What the threads of a `Finder` share, and what the one that sends has sent.
pub record Finder : Type 0 where
  pub self : HostInfo
  pub hosts : Hosts
  pub sent : List Bytes

-- A round of `send_thread` for one of the local addresses.
unfoldable pub announce : Bytes → Finder → Finder
unfolding to_string
announce local_ip f =
    let self : HostInfo = record f.self { ip = local_ip } in
    record f { self = self; sent = f.sent ++ (to_string self ∷ []) }

-- A round of `receive_thread`: an empty message is passed over.
unfoldable pub receive : Bytes → Finder → Finder
unfolding parse_message
receive [] f = f
receive (c ∷ cs) f = record f { hosts = (parse_message f.self (c ∷ cs) f.hosts).0 }

-- The rounds of both threads in any order. They share the two members with no lock; a round reads or
-- writes the own address whole.
pub data Event : Type 0 where
  announces receives : Bytes → Event

unfoldable pub step : Finder → Event → Finder
unfolding announce receive
step f (announces local_ip) = announce local_ip f
step f (receives message) = receive message f

unfoldable pub run : Finder → List Event → Finder
unfolding step
run f [] = f
run f (e ∷ es) = run (step f e) es

unfoldable pub get_hosts : Hosts → List HostInfo
get_hosts [] = []
get_hosts ((ip, host) ∷ hosts) = host ∷ get_hosts hosts
