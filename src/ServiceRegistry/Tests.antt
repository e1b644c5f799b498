-- ===== src/ServiceRegistry/Tests.antt =====
-- Runs of the registry, and the theorems at concrete inputs.
use thoth_ipc.Base.{ℕ, ◌≡◌, refl, arith, true, false, none, some, List, [], ◌∷◌, ◌==◌, replicate}
use thoth_ipc.ServiceRegistry.{
  RegistryData, Host, default_entry, fill_entry, copy_str, field_str, is_active, is_alive,
  reuse_named, fill_free, register_service_as, find_in, find, remove_owned, unregister_service_as,
  collect_dead, gc, list_in, list,
}
use thoth_ipc.ServiceRegistry.Utf8.{is_utf8}
use thoth_ipc.ServiceRegistry.Names.{IsName}
use thoth_ipc.ServiceRegistry.Register.{find-register, register-fails}

-- Process 100 runs, at second 9.
abbrev host : Host
host = record { is_pid_alive = λ pid. pid == 100; now = 9 }

abbrev empty : RegistryData
empty = record { count = 0; entries = replicate 32 default_entry }

-- "ab"
abbrev ab : List ℕ
ab = 97 ∷ 98 ∷ []

ab-IsName : IsName ab
ab-IsName = record {
  nonempty = omega arith;
  short = omega arith;
  no_zero = (λ e. omega (arith, e), (λ e. omega (arith, e), tt));
  utf8 = refl;
}

-- The two bytes of "é" are UTF-8; the first of them alone is not.
utf8_runs : is_utf8 (195 ∷ 169 ∷ []) ≡ true
utf8_runs = refl

utf8_cut : is_utf8 (195 ∷ []) ≡ false
utf8_cut = refl

registers : (register_service_as host empty ab [] [] 100).0 ≡ true
unfolding register_service_as reuse_named fill_free fill_entry copy_str is_active is_alive
registers = refl

abbrev dead : RegistryData
dead = record { count = 1; entries = record default_entry { name = ab; pid = 200 } ∷ [] }

gc_runs : gc host dead ≡ (1, record { count = 1; entries = default_entry ∷ [] })
unfolding gc collect_dead is_active is_alive
gc_runs = refl

list_runs : (list host dead).0 ≡ []
unfolding list list_in is_active is_alive
list_runs = refl

unregister_runs : (unregister_service_as dead ab 100).0 ≡ false
unfolding unregister_service_as remove_owned is_active field_str
unregister_runs = refl

-- A name of 64 bytes is cut to 63 and is not found again.
abbrev long : List ℕ
long = replicate 64 97

long_is_lost : (find host (register_service_as host empty long [] [] 100).1 long).0 ≡ none
unfolding register_service_as reuse_named fill_free fill_entry copy_str is_active is_alive find
    find_in field_str
long_is_lost = refl

taken : (register_service_as host (record dead { entries = [] }) ab [] [] 100).0 ≡ false
unfolding register_service_as reuse_named fill_free fill_entry copy_str is_active is_alive
taken = refl

find-register_example :
    (find host (register_service_as host empty ab [] [] 100).1 ab).0
    ≡ some (fill_entry host ab [] [] 100)
find-register_example = find-register host empty ab [] [] 100 ab-IsName refl refl registers

register-fails_example :
    (register_service_as host (record dead { entries = [] }) ab [] [] 100).1
    ≡ record dead { entries = [] }
register-fails_example =
    register-fails host (record dead { entries = [] }) ab [] [] 100 ab-IsName refl refl taken
