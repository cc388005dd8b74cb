-- ===== src/Esim/Steps/Waits.antt =====
-- Changes of the operations that are waited for, by modem, against the abstract machine.
use openwrt_apn_autoconfig.Prelude.{
  Bool-cases, inl, inr, true, String, none, some, Dict, [], ◌∷◌, lookup, insert, remove,
  lookup-insert, lookup-remove, str_eq, ◌≡◌, refl, arith,
}
use openwrt_apn_autoconfig.Esim.{Pending}
use text.Mathlib.TextEquality.{eq_iff}
use openwrt_apn_autoconfig.Esim.Steps.Machine

-- A map with each key once.
abbrev pub IsUnique : Dict Pending → Type 0
IsUnique [] = Unit
IsUnique ((k, _) ∷ d) = (lookup k d ≡ none) × IsUnique d

insert-IsUnique :
    (k : String) (p : Pending) (d : Dict Pending) → IsUnique d → IsUnique (insert k p d)
unfolding insert lookup
insert-IsUnique k p [] h = (refl, tt)
insert-IsUnique k p ((j, q) ∷ d) (fresh_key, h) =
    let rest = insert-IsUnique k p d h in
    elim (Bool-cases (str_eq j k)) [
      | inl t ↦ rw t (ground (arith, eq_iff j k), h)
      | inr f ↦ rw f (ground (arith, lookup-insert k j p d, eq_iff j k, eq_iff k j), rest)
    ]

remove-IsUnique : (k : String) (d : Dict Pending) → IsUnique d → IsUnique (remove k d)
unfolding remove
remove-IsUnique k [] h = tt
remove-IsUnique k ((j, q) ∷ d) (fresh_key, h) =
    let rest = remove-IsUnique k d h in
    elim (Bool-cases (str_eq j k)) [
      | inl t ↦ rw t rest
      | inr f ↦ rw f (ground (arith, lookup-remove k j d), rest)
    ]

-- What is waited for changes by at most one move for each modem.
pub record IsStep (d e : Dict Pending) : Type 0 where
  pub unique : IsUnique d → IsUnique e
  pub moves :
      (modem_id : String)
      → Machine.AtMost (Machine.phase_in modem_id d) (Machine.phase_in modem_id e)

pub same_key : (key other : String) → str_eq key other ≡ true → other ≡ key
same_key key other h = ground (arith, eq_iff key other)

pub unchanged : {d e : Dict Pending} → e ≡ d → IsStep d e
unchanged e = rw e (record { unique = λ h. h; moves = λ _. inl refl })

pub insert-IsStep :
    (key : String) (p : Pending) (d : Dict Pending)
    → Machine.Move (Machine.phase_in key d) (Machine.phase_of (some p))
    → IsStep d (insert key p d)
insert-IsStep key p d m = record {
  unique = insert-IsUnique key p d;
  moves = λ other. rw (lookup-insert key other p d) (elim (Bool-cases (str_eq key other)) [
    | inl t ↦ rw t (rw (same_key key other t) (inr m))
    | inr f ↦ rw f (inl refl)
  ]);
}

pub remove-IsStep :
    (key : String) (d : Dict Pending)
    → Machine.Move (Machine.phase_in key d) Machine.idle
    → IsStep d (remove key d)
remove-IsStep key d m = record {
  unique = remove-IsUnique key d;
  moves = λ other. rw (lookup-remove key other d) (elim (Bool-cases (str_eq key other)) [
    | inl t ↦ rw t (rw (same_key key other t) (inr m))
    | inr f ↦ rw f (inl refl)
  ]);
}
