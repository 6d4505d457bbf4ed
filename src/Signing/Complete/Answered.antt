-- ===== src/Signing/Complete/Answered.antt =====
-- What an answered completion was asked with, and has done.
use bug_free_fiesta.Program.{Runtime, Repositories}
use bug_free_fiesta.Prelude.{◌⊎◌, List}
use bug_free_fiesta.Signing.Complete.{
  CompleteSigningResult, Signer, InkSupport, CompleteSigningInput,
}
use bug_free_fiesta.Signing.Checks.{LoadedSignerSession}
use bug_free_fiesta.Signing.Complete.Signed.{HasSigned}
use bug_free_fiesta.Signing.Complete.Answers.{MaySign, AnswersAgain, roster_of, RepeatsAnswer}

module _ (rt : Runtime) (support : InkSupport) (input : CompleteSigningInput)
    (loaded : LoadedSignerSession) (roster : List Signer) where
  -- The answer repeats the stored one, or the signature is stored.
  abbrev Signs : CompleteSigningResult → Repositories → Repositories → Type 0
  Signs result s t =
      RepeatsAnswer rt support input loaded result s t ⊎ HasSigned loaded roster result t

module _ (rt : Runtime) (support : InkSupport) (input : CompleteSigningInput)
    (loaded : LoadedSignerSession) where
  abbrev pub Completes : CompleteSigningResult → Repositories → Repositories → Type 0
  Completes result s t =
      AnswersAgain loaded result s t
      ⊎ (MaySign input loaded s
          × (RepeatsAnswer rt support input loaded result s t
              ⊎ HasSigned loaded (roster_of loaded s) result t))
