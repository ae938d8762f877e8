-- ===== src/Cv6xx/Flash.antt =====
-- What a run that reports success has put on the wire.
use openipc_defib.Prelude.{ℕ, List}
use openipc_defib.Prelude.Result.{Result}
use openipc_defib.Line.{Line}
use openipc_defib.Bootrom.Sent.{Sent}
use openipc_defib.Cv6xx.Boot.{Cv6xxBootParts}
use openipc_defib.Cv6xx.Asked.{Queried}

-- The DDR table, and after the training the payload.
pub record TableSent (table payload : List ℕ) (s s' : Line) : Type 0 where
  pub after_table : Line
  pub table_sent : Sent table 0x41000000 s after_table
  pub payload_sent : Sent payload 0x41000000 after_table s'

-- GSL, question, DDR table and payload, one after the other and with nothing else between; the board
-- is the one that the device named.
pub record Cv6xxFlashed (parts : Cv6xxBootParts) (payload : List ℕ) (now : ℕ) (s s' : Line)
    : Type 0 where
  pub table : List ℕ
  pub after_gsl : Line
  pub before_table : Line
  pub gsl_sent : Sent parts.gsl_data 0x04020000 s after_gsl
  pub queried : Queried parts now table after_gsl before_table
  pub rest_sent : TableSent table payload before_table s'
