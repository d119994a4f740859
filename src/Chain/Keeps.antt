-- ===== src/Chain/Keeps.antt =====
-- Methods that carry a relation on states from start to end, and how they compose.
use egg_project.Prelude.{◌≡◌, refl, subst, Bool, true, false, Option, none, some, Result, ok, err}
use egg_project.Exec.{Exec, ◌>>=◌, ◌>>◌}
use egg_project.Kv.{KvStore}
use egg_project.Types.{Hash256, Height, BlockHeader, Block}
use egg_project.Store.Records.{StoreError, ChainTip, BlockMeta}
use egg_project.Store.Ops.{put_header, put_block, put_block_meta, add_child, set_canon_hash}
use egg_project.Chain.Defs.{
  ChainStateError, ChainState, Run, asks, writes, given, given_some, branch, fails, returns, self,
}

-- The writes of the methods, but for those of the tip and of the meta.
pub data Write (kv : KvStore) : Exec kv.State StoreError (Unit {0}) → Type 0 where
  header_write : (id : Hash256) (h : BlockHeader) → Write kv (put_header kv id h)
  block_write : (id : Hash256) (b : Block) → Write kv (put_block kv id b)
  meta_write : (id : Hash256) (m : BlockMeta) → Write kv (put_block_meta kv id m)
  child_write : (p c : Hash256) → Write kv (add_child kv p c)
  canon_write : (h : Height) (x : Hash256) → Write kv (set_canon_hash kv h x)

-- A relation between the state before and the state after that these writes keep.
pub record Lawful (kv : KvStore) (R : ChainState kv.State → ChainState kv.State → Type 0)
    : Type 0 where
  pub stays : (st : ChainState kv.State) → R st st
  pub joins : (a b c : ChainState kv.State) → R a b → R b c → R a c
  pub written :
      (m : Exec kv.State StoreError (Unit {0}))
      → Write kv m
      → (st : ChainState kv.State) → R st (record st { store = (m st.store).1 })

module _ (kv : KvStore) (R : ChainState kv.State → ChainState kv.State → Type 0) where
  open kv use {State}

  pub record Keeps {A : Type 0} (m : Run kv A) : Type 0 where
    pub keeps : (st : ChainState State) → R st (m st).1

  module _ (L : Lawful kv R) where
    module _ {A : Type 0} where
      pub asks-Keeps : (f : State → Result StoreError A) → Keeps (asks kv f)
      unfolding asks
      asks-Keeps f = record { keeps = λ st. L.stays st }

      pub given-Keeps : (r : Result ChainStateError A) → Keeps (given kv r)
      unfolding given
      given-Keeps r = record { keeps = λ st. L.stays st }

      pub given_some-Keeps : (e : ChainStateError) (o : Option A) → Keeps (given_some kv e o)
      unfolding given_some
      given_some-Keeps e none = record { keeps = λ st. L.stays st }
      given_some-Keeps e (some a) = record { keeps = λ st. L.stays st }

      pub fails-Keeps : (e : ChainStateError) → Keeps (fails kv {A = A} e)
      unfolding fails
      fails-Keeps e = record { keeps = λ st. L.stays st }

      pub returns-Keeps : (a : A) → Keeps (returns kv a)
      unfolding returns
      returns-Keeps a = record { keeps = λ st. L.stays st }

      pub branch-Keeps : (b : Bool) (m n : Run kv A) → Keeps m → Keeps n → Keeps (branch kv b m n)
      unfolding branch
      branch-Keeps true m n hm hn = hm
      branch-Keeps false m n hm hn = hn

    pub writes-Keeps : (m : Exec State StoreError (Unit {0})) → Write kv m → Keeps (writes kv m)
    unfolding writes
    writes-Keeps m w = record { keeps = L.written m w }

    pub self-Keeps : Keeps (self kv)
    unfolding self
    self-Keeps = record { keeps = λ st. L.stays st }

    module _ {A B : Type 0} where
      pub bind-Keeps :
          (m : Run kv A) (f : A → Run kv B) → Keeps m → ((a : A) → Keeps (f a)) → Keeps (m >>= f)
      unfolding ◌>>=◌
      bind-Keeps m f hm hf = record { keeps = λ st. go st (m st) refl }
        where
          go :
              (st : ChainState State) (p : Result ChainStateError A × ChainState State)
              → m st ≡ p
              → R st ((m >>= f) st).1
          go st (ok a, st') e =
              rw (e, ◌>>=◌)
                (L.joins st st' (f a st').1 (subst (λ q. R st q.1) e (hm.keeps st))
                  ((hf a).keeps st'))
          go st (err x, st') e = rw (e, ◌>>=◌) (subst (λ q. R st q.1) e (hm.keeps st))

      pub then-Keeps : (m : Run kv A) (n : Run kv B) → Keeps m → Keeps n → Keeps (m >> n)
      unfolding ◌>>◌
      then-Keeps m n hm hn = bind-Keeps m (λ _. n) hm (λ _. hn)

-- A reflexive and transitive relation on tips is lawful, since those writes leave the tip alone.
abbrev pub OnTips :
    {S : Type 0} → (ChainTip → ChainTip → Type 0) → ChainState S → ChainState S → Type 0
OnTips R a b = R a.tip b.tip

pub OnTips-Lawful :
    (kv : KvStore) (R : ChainTip → ChainTip → Type 0)
    → ((t : ChainTip) → R t t)
    → ((a b c : ChainTip) → R a b → R b c → R a c)
    → Lawful kv (OnTips R)
OnTips-Lawful kv R r tr = record {
  stays = λ st. r st.tip;
  joins = λ a b c. tr a.tip b.tip c.tip;
  written = λ m w st. r st.tip;
}
