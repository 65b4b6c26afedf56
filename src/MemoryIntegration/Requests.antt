-- ===== src/MemoryIntegration/Requests.antt =====
-- argus/memory_integration/integration.py: the calls of MemoryIntegration, as requests of one type.
use argus_os.Prelude.{ℕ, String, ◌≡◌, ok, err, arith, inl, inr, pure, ◌>>◌, Result-cases}
use argus_os.MemoryIntegration.{MemoryIntegration, IntegrationError, Method}
use argus_os.MemoryIntegration
use argus_os.MemoryIntegration.Handled.{
  IsBridged, Handled, synchronize_memory-Handled, remove_memory-Handled, reset-Handled,
  synchronize_all-Handled,
}

pub data Request : Type 0 where
  synchronize_memory : (now : ℕ) (new_id : ℕ → String) → String → Request
  remove_memory : String → Request
  synchronize_all : (clock : String → ℕ) (new_id : String → ℕ → String) (now : ℕ) → Request
  reset : Request

unfoldable pub perform : Request → Method Unit
perform (Request.synchronize_memory now new_id key) =
    MemoryIntegration.synchronize_memory now new_id key >> pure tt
perform (Request.remove_memory key) = MemoryIntegration.remove_memory key
perform (Request.synchronize_all clock new_id now) =
    MemoryIntegration.synchronize_all clock new_id now >> pure tt
perform Request.reset = MemoryIntegration.reset

then-ok :
    {A : Type 0} (f : Method A) (m : MemoryIntegration) (a : A)
    → (f m).0 ≡ ok a
    → (f >> pure tt) m ≡ (ok tt, (f m).1)
then-ok f m a p = ground (arith, p)

then-err :
    {A : Type 0} (f : Method A) (m : MemoryIntegration) (e : IntegrationError)
    → (f m).0 ≡ err e
    → (f >> pure tt) m ≡ (err e, (f m).1)
then-err f m e p = ground (arith, p)

Handled-then :
    {A : Type 0} (f : Method A) (m : MemoryIntegration) → Handled f m → Handled (f >> pure tt) m
Handled-then f m (a, b) = elim (Result-cases (f m).0) [
  | inl (x, p) ↦ rw (then-ok f m x p) (tt, b)
  | inr (e, p) ↦ rw (then-err f m e p) (ground (arith, p, a), b)
]

-- With a consistent graph and no failure noted: every call keeps both, and the only errors are those
-- of a call that is refused at once, so MemoryMappingError is never raised and no error of the graph
-- escapes.
pub perform-Handled :
    (request : Request) (m : MemoryIntegration) → IsBridged m → Handled (perform request) m
unfolding perform
perform-Handled (Request.synchronize_memory now new_id key) m h =
    Handled-then (MemoryIntegration.synchronize_memory now new_id key) m
      (synchronize_memory-Handled now new_id key m h)
perform-Handled (Request.remove_memory key) m h = remove_memory-Handled key m h
perform-Handled (Request.synchronize_all clock new_id now) m h =
    Handled-then (MemoryIntegration.synchronize_all clock new_id now) m
      (synchronize_all-Handled clock new_id now m h)
perform-Handled Request.reset m h = reset-Handled m h
