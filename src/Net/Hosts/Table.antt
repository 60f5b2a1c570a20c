-- ===== src/Net/Hosts/Table.antt =====
-- breUtils/net/Finder.hpp: a host's text is read back, and what the table has for one address.
use bre_utils.Prelude.{
  false, Option, none, some, List, [], ◌∷◌, ◌++◌, Bytes, codes, All, equal, equal_iff, equal_self,
  append-nil, append_assoc, find_key, find_key-put, find_key-erase, if◌then◌else◌, Bool-cases,
  if_true, if_false, ◌≡◌, ◌≢◌, ◌⊎◌, inl, inr, refl, sym, ap, ◌∙◌, subst, arith,
}
use bre_utils.Net.Hosts.{
  HostInfo, to_string, string_split, is_empty, host_of, parse_host, Hosts, keep, update, on_host,
  parse_message, Finder, announce, receive, Event, announces, receives, run,
}

-- A text without a separator.
abbrev pub IsPiece : Bytes → Type 0
IsPiece s = All (λ c. c ≢ b',') s

string_split-piece :
    (piece rest : Bytes)
    → IsPiece piece
    → string_split (piece ++ (b',' ∷ rest)) b',' ≡ piece ∷ string_split rest b','
unfolding string_split
string_split-piece [] rest h = refl
string_split-piece (c ∷ piece) rest (h, hs) =
    rw (string_split-piece piece rest hs) (ground (arith, h))

string_split-last : (piece : Bytes) → IsPiece piece → string_split piece b',' ≡ piece ∷ []
unfolding string_split
string_split-last [] h = refl
string_split-last (c ∷ piece) (h, hs) = rw (string_split-last piece hs) (ground (arith, h))

host_of-accepted :
    (h : HostInfo)
    → (h.state ≡ codes "0") ⊎ (h.state ≡ codes "1")
    → is_empty (h.ip) ≡ false
    → host_of (h.state ∷ h.ip ∷ h.name ∷ h.mac ∷ []) ≡ some h
unfolding host_of equal
host_of-accepted h (inl e) ip = rw (e, ip) refl
host_of-accepted h (inr e) ip = rw (e, ip) refl

-- A host that joins or leaves, with an address and no comma in its texts, is read back from the text
-- that is sent of it.
parse_host-to_string :
    (h : HostInfo)
    → (h.state ≡ codes "0") ⊎ (h.state ≡ codes "1")
    → is_empty (h.ip) ≡ false
    → IsPiece (h.state)
    → IsPiece (h.ip)
    → IsPiece (h.name)
    → IsPiece (h.mac)
    → parse_host (to_string h) ≡ some h
unfolding parse_host to_string
parse_host-to_string h known ip s i n m =
    ap host_of (
      string_split-piece (h.state) _ s
      ∙ ap (h.state ∷◌) (
          string_split-piece (h.ip) _ i
          ∙ ap (h.ip ∷◌)
              (string_split-piece (h.name) _ n ∙ ap (h.name ∷◌) (string_split-last (h.mac) m))))
    ∙ host_of-accepted h known ip

-- What is known of one address behind a message: it is forgotten when its host leaves, and is the
-- first that was heard since.
abbrev first_known : Option HostInfo → HostInfo → Option HostInfo
first_known none h = some h
first_known (some old) h = some old

abbrev pub listen : HostInfo → Bytes → Option HostInfo → Option HostInfo → Option HostInfo
listen self ip known none = known
listen self ip known (some h) =
    if equal (h.ip) (self.ip)
    then known
    else if equal (h.ip) ip
    then (if equal (h.state) (codes "1") then none else first_known known h)
    else known

unfoldable pub listen_all : HostInfo → Bytes → List Event → Option HostInfo → Option HostInfo
listen_all self ip [] known = known
listen_all self ip (announces local_ip ∷ es) known =
    listen_all (record self { ip = local_ip }) ip es known
listen_all self ip (receives message ∷ es) known =
    listen_all self ip es (listen self ip known (parse_host message))

-- The texts of the own host, under the address of each announcement.
unfoldable pub announced : HostInfo → List Event → List Bytes
announced self [] = []
announced self (announces local_ip ∷ es) =
    to_string (record self { ip = local_ip }) ∷ announced self es
announced self (receives message ∷ es) = announced self es

keep-same :
    (hosts : Hosts) (h : HostInfo) (o : Option HostInfo)
    → find_key hosts (h.ip) ≡ o
    → find_key (keep hosts h o) (h.ip) ≡ first_known o h
keep-same hosts h none e =
    find_key-put hosts (h.ip) h (h.ip)
    ∙ ap (λ b. if b then some h else find_key hosts (h.ip)) (equal_self (h.ip))
keep-same hosts h (some old) e = e

keep-other :
    (hosts : Hosts) (h : HostInfo) (o : Option HostInfo) (ip : Bytes)
    → equal (h.ip) ip ≡ false
    → find_key (keep hosts h o) ip ≡ find_key hosts ip
keep-other hosts h none ip e =
    find_key-put hosts (h.ip) h ip ∙ ap (λ b. if b then some h else find_key hosts ip) e
keep-other hosts h (some old) ip e = refl

find_key-keep :
    (hosts : Hosts) (h : HostInfo) (ip : Bytes)
    → find_key (keep hosts h (find_key hosts (h.ip))) ip
      ≡ (if equal (h.ip) ip then first_known (find_key hosts ip) h else find_key hosts ip)
find_key-keep hosts h ip = elim (Bool-cases (equal (h.ip) ip)) [
  | inl same ↦
      subst
        (λ key.
          find_key (keep hosts h (find_key hosts (h.ip))) key ≡ first_known (find_key hosts key) h)
        ((equal_iff (h.ip) ip).0 same) (keep-same hosts h (find_key hosts (h.ip)) refl)
      ∙ sym (if_true _ _ (equal (h.ip) ip) same)
  | inr other ↦
      keep-other hosts h (find_key hosts (h.ip)) ip other
      ∙ sym (if_false _ _ (equal (h.ip) ip) other)
]

find_key-update :
    (hosts : Hosts) (h : HostInfo) (ip : Bytes)
    → find_key (update h hosts) ip ≡ (
        if equal (h.ip) ip
        then (if equal (h.state) (codes "1") then none else first_known (find_key hosts ip) h)
        else find_key hosts ip)
unfolding update
find_key-update hosts h ip =
    ground (arith, find_key-erase hosts (h.ip) ip, find_key-keep hosts h ip)

find_key-on_host :
    (self : HostInfo) (o : Option HostInfo) (hosts : Hosts) (ip : Bytes)
    → find_key ((on_host self o hosts).0) ip ≡ listen self ip (find_key hosts ip) o
unfolding on_host
find_key-on_host self none hosts ip = refl
find_key-on_host self (some h) hosts ip = ground (arith, find_key-update hosts h ip)

run-hosts :
    (es : List Event) (f : Finder) (ip : Bytes)
    → find_key (run f es).hosts ip ≡ listen_all f.self ip es (find_key f.hosts ip)
unfolding run announce receive listen_all parse_message parse_host string_split host_of
run-hosts [] f ip = refl
run-hosts (announces local_ip ∷ es) f ip = run-hosts es (announce local_ip f) ip
run-hosts (receives [] ∷ es) f ip = run-hosts es f ip
run-hosts (receives (c ∷ cs) ∷ es) f ip =
    let message = c ∷ cs in
    run-hosts es (receive message f) ip
    ∙ ap (listen_all f.self ip es) (find_key-on_host f.self (parse_host message) f.hosts ip)

run-sent : (es : List Event) (f : Finder) → (run f es).sent ≡ f.sent ++ announced f.self es
unfolding run announce receive announced
run-sent [] f = sym (append-nil f.sent)
run-sent (announces local_ip ∷ es) f =
    run-sent es (announce local_ip f)
    ∙ append_assoc f.sent (to_string (record f.self { ip = local_ip }) ∷ []) _
run-sent (receives [] ∷ es) f = run-sent es f
run-sent (receives (c ∷ cs) ∷ es) f = run-sent es (receive (c ∷ cs) f)

-- However the rounds of the sending and the receiving thread follow one another, each of them whole: the
-- table is, address by address, what a listener for that one address knows after the messages, where
-- a message that has for its address the own one of that moment, which every announcement changes, is
-- passed over; and what was sent is the own host's text under the address of each announcement.
pub find_key-run :
    (f : Finder) (es : List Event) (ip : Bytes)
    → (find_key (run f es).hosts ip ≡ listen_all f.self ip es (find_key f.hosts ip))
      × ((run f es).sent ≡ f.sent ++ announced f.self es)
find_key-run f es ip = (run-hosts es f ip, run-sent es f)
