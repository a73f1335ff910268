-- ===== src/Mpeg/PatPrograms.antt =====
-- src/media-server/libmpeg/source/mpeg-pat.c: the entries that a reader has after a section.
use stream.Base.{
  ℕ, List, [], ◌∷◌, ◌++◌, ◌+◌, ◌*◌, ◌^◌, ◌≤◌, ◌<◌, ◌≡◌, refl, sym, ◌∙◌, ◌≢◌, ◌==◌, length, All,
  arith, done, ◌>>=◌, true, false,
}
use mathlib.Core.List.{append_assoc, append-nil}
use stream.Mpeg.Pes.{differs}
use stream.Mpeg.Pat.{Pmt, Pat, empty_pmt, pat_fetch, pat_read, pat_write}
use stream.Mpeg.PatRoundTrip.{IsProgram, update_programs, pat_read-write}

abbrev pub HasOtherPid : ℕ → Pmt → Type 0
HasOtherPid pid q = (q.pid == pid) ≡ false

-- No two programs share a pid.
abbrev pub HasDistinctPids : List Pmt → Type 0
HasDistinctPids [] = Unit {0}
HasDistinctPids (p ∷ ps) = All (λ q. p.pid ≢ q.pid) ps × HasDistinctPids ps

-- The part of the entries that a section carries.
unfoldable pub programs_of : List Pmt → List Pmt
programs_of [] = []
programs_of (p ∷ ps) = record empty_pmt { pid = p.pid; pn = p.pn } ∷ programs_of ps

pat_fetch-new :
    (pid pn : ℕ) (pmts : List Pmt)
    → All (HasOtherPid pid) pmts
    → pat_fetch pid pn pmts ≡ pmts ++ (record empty_pmt { pn = pn; pid = pid } ∷ [])
unfolding pat_fetch
pat_fetch-new pid pn [] h = refl
pat_fetch-new pid pn (p ∷ pmts) (h, hs) = rw (h, pat_fetch-new pid pn pmts hs)

-- Each of the programs differs from all the entries.
AreNew : List Pmt → List Pmt → Type 0
AreNew pmts [] = Unit {0}
AreNew pmts (p ∷ ps) = All (HasOtherPid p.pid) pmts × AreNew pmts ps

other-append :
    (pid : ℕ) (p : Pmt) (pmts : List Pmt)
    → All (HasOtherPid pid) pmts
    → p.pid ≢ pid
    → All (HasOtherPid pid) (pmts ++ (p ∷ []))
other-append pid p [] h d = (ground arith, tt)
other-append pid p (q ∷ pmts) (h, hs) d = (h, other-append pid p pmts hs d)

AreNew-append :
    (p : Pmt) (pmts ps : List Pmt)
    → AreNew pmts ps
    → All (λ q. p.pid ≢ q.pid) ps
    → AreNew (pmts ++ (p ∷ [])) ps
unfolding AreNew
AreNew-append p pmts [] h d = tt
AreNew-append p pmts (q ∷ ps) (h, hs) (d, ds) =
    (other-append q.pid p pmts h d, AreNew-append p pmts ps hs ds)

update_programs-new :
    (ps pmts : List Pmt)
    → HasDistinctPids ps
    → AreNew pmts ps
    → update_programs pmts ps ≡ pmts ++ programs_of ps
unfolding update_programs programs_of AreNew
update_programs-new [] pmts d h = sym (append-nil pmts)
update_programs-new (p ∷ ps) pmts (d, ds) (h, hs) =
    let q : Pmt = record empty_pmt { pid = p.pid; pn = p.pn } in
    rw (pat_fetch-new p.pid p.pn pmts h) (
      update_programs-new ps (pmts ++ (q ∷ [])) ds (AreNew-append q pmts ps hs d)
      ∙ append_assoc pmts (q ∷ []) (programs_of ps))

AreNew-empty : (ps : List Pmt) → AreNew [] ps
unfolding AreNew
AreNew-empty [] = tt
AreNew-empty (p ∷ ps) = (tt, AreNew-empty ps)

-- Where moreover the version differs from the reader's and no two programs share a pid, the
-- reader has exactly the programs written, in order, with nothing else set in their entries.
pub pat_read-write_programs :
    (old pat : Pat) (buf : List ℕ) (bytes : ℕ)
    → differs old.ver pat.ver ≡ true
    → HasDistinctPids pat.pmts
    → length pat.pmts ≤ 43
    → pat.tsid < 2 ^ 16
    → pat.ver < 32
    → All IsProgram pat.pmts
    → length pat.pmts * 4 + 12 ≤ length buf
    → length pat.pmts * 4 + 12 ≤ bytes
    → (pat_write pat buf >>= λ w. pat_read old w.1 bytes)
      ≡ done (record old { tsid = pat.tsid; ver = pat.ver; pmts = programs_of pat.pmts })
pat_read-write_programs old pat buf bytes v d p qt qv qs q r =
    pat_read-write old pat buf bytes p qt qv qs q r
    ∙ rw (v, update_programs-new pat.pmts [] d (AreNew-empty pat.pmts))
