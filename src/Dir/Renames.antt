-- ===== src/Dir/Renames.antt =====
-- Three files of src/swtpm/swtpm_nvstore_dir.c whose contents rename() moves about.
use swtpm.Common.{◌≡◌, ◌≢◌, ◌∙◌, true, false, Option, none}
use swtpm.Dir.{Bytes, FileOps}
use swtpm.Dir.Laws.{FileLaws}

module _ {W : Type 0} {ops : FileOps W} (laws : FileLaws ops) where
  open laws use {content}

  -- where the three contents are
  pub record At (f b t : Bytes) (w w' : W) (cf cb ct : Option Bytes) : Type 0 where
    pub at_f : content w' f ≡ cf
    pub at_b : content w' b ≡ cb
    pub at_t : content w' t ≡ ct
    pub others : (q : Bytes) → q ≢ f → q ≢ b → q ≢ t → content w' q ≡ content w q

  -- a rename among the three that fails leaves them where they are
  pub still :
      {f b t : Bytes} {w w1 : W} {cf cb ct : Option Bytes} (p q : Bytes) (w2 : W)
      → At f b t w w1 cf cb ct
      → ops.rename p q w1 ≡ (false, w2)
      → At f b t w w2 cf cb ct
  still {f} {b} {t} {w1 = w1} p q w2 a e =
      let same = laws.rename_fails p q w1 w2 e in
      record {
        at_f = same f ∙ a.at_f;
        at_b = same b ∙ a.at_b;
        at_t = same t ∙ a.at_t;
        others = λ q nf nb nt. same q ∙ a.others q nf nb nt;
      }

  -- a rename of the first to the second of three, in any order of the three
  pub to_second :
      {p q o : Bytes} {w w1 : W} {cp cq co : Option Bytes} (w2 : W)
      → p ≢ q
      → o ≢ p
      → o ≢ q
      → At p q o w w1 cp cq co
      → ops.rename p q w1 ≡ (true, w2)
      → At p q o w w2 none cp co
  to_second {p} {q} {o} {w1 = w1} w2 pq op oq a e =
      let (new, gone) = laws.rename_to p q w1 w2 pq e in
      let keeps = laws.rename_keeps p q w1 w2 e in
      record {
        at_f = gone;
        at_b = new ∙ a.at_f;
        at_t = keeps o op oq ∙ a.at_t;
        others = λ r nf nb nt. keeps r nf nb ∙ a.others r nf nb nt;
      }

  pub rotate-At :
      {p q o : Bytes} {w w1 : W} {cp cq co : Option Bytes}
      → At p q o w w1 cp cq co
      → At q o p w w1 cq co cp
  rotate-At a = record {
    at_f = a.at_b;
    at_b = a.at_t;
    at_t = a.at_f;
    others = λ r nq no np. a.others r np nq no;
  }

  pub swap-At :
      {p q o : Bytes} {w w1 : W} {cp cq co : Option Bytes}
      → At p q o w w1 cp cq co
      → At q p o w w1 cq cp co
  swap-At a = record {
    at_f = a.at_b;
    at_b = a.at_f;
    at_t = a.at_t;
    others = λ r nq np no. a.others r np nq no;
  }
