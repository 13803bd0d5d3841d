-- ===== src/Sql/Executor/Results.antt =====
-- Results of src/sql/executor.cpp: what an `ok` says of the calls before it.
use lettydb.Common.{◌≡◌, refl, Bool, true, false, if◌then◌else◌}
use lettydb.Sql.Executor.{Failure, Result, ok, failed, ◌>>=◌}

pub ok_eq {ℓ} : {A : Type ℓ} {x y : A} → ok x ≡ ok y → x ≡ y
ok_eq h = cc

pub guard_ok {ℓ} :
    {A : Type ℓ} {x : Result A} {r : A} (f : Failure) (b : Bool)
    → (if b then failed f else x) ≡ ok r
    → (b ≡ false) × (x ≡ ok r)
guard_ok f true e = cc
guard_ok f false e = (refl, e)

pub >>=-ok {ℓ} :
    {A B : Type ℓ} (call : Result A) (rest : A → Result B) {y : B}
    → (call >>= rest) ≡ ok y
    → (x : A) × (call ≡ ok x) × (rest x ≡ ok y)
>>=-ok (failed why) rest h = cc
>>=-ok (ok x) rest h = (x, refl, h)
