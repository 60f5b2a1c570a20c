-- ===== src/Net/Hosts/Tests.antt =====
-- breUtils/net/Finder.hpp: runs.
use bre_utils.Prelude.{none, List, [], ◌∷◌, codes, find_key, equal, ◌≡◌, refl}
use bre_utils.Net.Hosts.{HostInfo, init_self, Finder, Event, announces, receives, run, get_hosts}
use bre_utils.Net.Hosts.Table.{listen_all, announced, find_key-run}

abbrev printer : HostInfo
printer = record { state = codes "0"; ip = codes "10.0.0.7"; name = codes "lp"; mac = codes "aa" }

abbrev other_self : HostInfo
other_self = record init_self { ip = codes "10.0.0.2" }

abbrev begun : Finder
begun = record { self = init_self; hosts = []; sent = [] }

abbrev events : List Event
events =
    receives (codes "0,10.0.0.7,lp,aa")
    ∷ receives (codes "0,127.0.0.1,me,bb")
    ∷ announces (codes "10.0.0.1")
    ∷ receives []
    ∷ receives (codes "0,10.0.0.1,test,00:00:00:00:00:00")
    ∷ receives (codes "0,10.0.0.8,pc,cc")
    ∷ receives (codes "1,10.0.0.8,pc,cc")
    ∷ receives (codes "0,10.0.0.7,other,dd")
    ∷ receives (codes "nothing")
    ∷ []

get_hosts-run : get_hosts (run begun events).hosts ≡ printer ∷ []
unfolding get_hosts run init_self equal
get_hosts-run = refl

-- A host of two addresses takes its own announcement under the other one for another host's.
run-own :
    get_hosts
      (run begun (
        announces (codes "10.0.0.1")
        ∷ announces (codes "10.0.0.2")
        ∷ announces (codes "10.0.0.1")
        ∷ receives (codes "0,10.0.0.2,test,00:00:00:00:00:00")
        ∷ [])).hosts
    ≡ other_self ∷ []
unfolding get_hosts run init_self equal
run-own = refl

find_key-run_example :
    (find_key (run begun events).hosts (codes "10.0.0.8")
      ≡ listen_all init_self (codes "10.0.0.8") events none)
    × ((run begun events).sent ≡ announced init_self events)
unfolding find_key
find_key-run_example = find_key-run begun events (codes "10.0.0.8")
