-- ===== src/Logger.antt =====
-- The two daemons that write down what the proxies report: loggerserver/loggerserver.c, and
-- analyzer/analyzer.c, which was made from the same text.
pub mod LoggerServer
pub mod Analyzer
pub mod LoggerStart
pub mod AnalyzerStart
pub mod AnalyzerPlugin
pub mod File
pub mod Journal
pub mod Kept
pub mod Life
pub mod Receiving
pub mod AnalyzerLife
pub mod Path
pub mod Same
mod Runs
