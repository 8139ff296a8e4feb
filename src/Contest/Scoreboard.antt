-- ===== src/Contest/Scoreboard.antt =====
-- internal/contest/scoreboard.go and scoreboard_pagination.go.
pub mod Rows
pub mod Ranking
pub mod Cursor
pub mod Live
pub mod Paging
pub mod Board
pub mod Cells
pub mod Totals
pub mod Agreement
pub mod Service
