-- ===== src/Api/Unpinned.antt =====
-- `aept_unpin`.
use aept.Base.{◌≡◌, refl, ◌∙◌, inl, inr, none, List, [], ◌∷◌, arith, if◌then◌else◌, any}
use aept.Text.Strings.{Bytes, str_eq}
use aept.Files.{FilePath, Files, Code-cases, success, Faults}
use aept.Pin.{PinEntry, pin_remove, pin_lookup}
use aept.Pin.Abstract.{drop_pin}
use aept.Pin.Refines.{Holds, pin_remove-Holds, pin_lookup-pin_remove}
use aept.Api.{unpin}

-- After a successful `aept_unpin` on a file of entries that the buffers can take, none of the names has a
-- pin, and every other name has the one it had.
pub pin_lookup-unpin :
    (pin_file : FilePath) (faults : Bytes → Faults) (ns : List Bytes) (q : Bytes)
    (es : List PinEntry) (fs : Files)
    → Holds pin_file es fs
    → (unpin pin_file faults ns fs).0 ≡ success
    → pin_lookup pin_file q (unpin pin_file faults ns fs).1
      ≡ (if any (λ n. str_eq n q) ns then none else pin_lookup pin_file q fs)
unfolding unpin
pin_lookup-unpin pin_file faults [] q es fs h = λ ok. refl
pin_lookup-unpin pin_file faults (n ∷ ns) q es fs h =
    let after = (pin_remove pin_file n (faults n) fs).1 in
    elim (Code-cases (pin_remove pin_file n (faults n) fs).0) [
      | inr bad ↦ rw (bad, unpin) (λ ok. cc)
      | inl good ↦
          rw (good, unpin)
            (λ ok.
              pin_lookup-unpin pin_file faults ns q (drop_pin n es) after
                (pin_remove-Holds pin_file es fs h n (faults n) good) ok
              ∙ rw (pin_lookup-pin_remove pin_file es fs n q (faults n) h good) (ground arith))
    ]
